-- ===== src/FreshRead/Freshness.antt =====
-- server/infra/freshRead.ts: runs of reads and loads on a clock.
use bahn_project_manager.Prelude.{
  ℕ, suc, ◌+◌, ◌≤◌, ◌≡◌, refl, sym, inl, inr, true, false, Option, none, some, some-injective, List,
  [], ◌∷◌, ◌++◌, All, All-map, In, leb, leb→le, nat_beq, if◌then◌else◌, Bool-cases, arith,
}
use bahn_project_manager.FreshRead.{
  FreshRead, new_fresh_read, read_running, read, hand_out, start, clear,
}

-- Runs, with the time on a clock that does not go back, what the reads so far asked for and when
-- loads started. A read asks for a time that has come; the queued load starts when no load runs.
pub data Reach : ℕ → List ℕ → List ℕ → FreshRead → Type 0 where
  created : Reach 0 [] [] new_fresh_read
  passed :
      (t : ℕ) (asks starts : List ℕ) (s : FreshRead) (u : ℕ)
      → t ≤ u
      → Reach t asks starts s
      → Reach u asks starts s
  asked :
      (t : ℕ) (asks starts : List ℕ) (s : FreshRead) (after : ℕ)
      → after ≤ t
      → Reach t asks starts s
      → Reach t (after ∷ asks) starts (read after s)
  started :
      (t : ℕ) (asks starts : List ℕ) (s : FreshRead)
      → s.running ≡ none
      → s.queued ≡ true
      → Reach t asks starts s
      → Reach t asks (t ∷ starts) (start t s)
  settled :
      (t : ℕ) (asks starts : List ℕ) (s : FreshRead)
      → Reach t asks starts s
      → Reach t asks starts (clear s)

-- How often a time was asked for, and by how many of those who hold a load.
abbrev pub times : ℕ → List ℕ → ℕ
times a [] = 0
times a (x ∷ xs) = if nat_beq a x then suc (times a xs) else times a xs

abbrev pub times_handed : ℕ → List (ℕ × ℕ) → ℕ
times_handed a [] = 0
times_handed a ((x, _) ∷ xs) = if nat_beq a x then suc (times_handed a xs) else times_handed a xs

-- A load that was started, at or after the time that its reader asked for.
abbrev pub IsFresh : List ℕ → ℕ × ℕ → Type 0
IsFresh starts p = (p.0 ≤ p.1) × In p.1 starts

-- Each reader holds a load or waits, and no one else does; every load that is held is fresh; who
-- waits waits for a load that is queued, and asked for a time that has come.
pub record Fresh (t : ℕ) (asks starts : List ℕ) (s : FreshRead) : Type 0 where
  pub served : (a : ℕ) → times a asks ≡ times a s.waiting + times_handed a s.handed
  pub fresh : All (IsFresh starts) s.handed
  pub due : All (λ after. after ≤ t) s.waiting
  pub queued : s.queued ≡ false → s.waiting ≡ []
  pub running : (u : ℕ) → s.running ≡ some u → In u starts

times_handed-hand_out :
    (a t : ℕ) (afters : List ℕ) (rest : List (ℕ × ℕ))
    → times_handed a (hand_out t afters ++ rest) ≡ times a afters + times_handed a rest
times_handed-hand_out a t [] rest = omega arith
times_handed-hand_out a t (x ∷ afters) rest = ground (arith, times_handed-hand_out a t afters rest)

hand_out-IsFresh :
    (t : ℕ) (starts afters : List ℕ) (rest : List (ℕ × ℕ))
    → All (λ after. after ≤ t) afters
    → All (IsFresh (t ∷ starts)) rest
    → All (IsFresh (t ∷ starts)) (hand_out t afters ++ rest)
hand_out-IsFresh t starts [] rest h k = k
hand_out-IsFresh t starts (after ∷ afters) rest (q, h) k =
    ((q, inl refl), hand_out-IsFresh t starts afters rest h k)

read_running-Fresh :
    (t : ℕ) (asks starts : List ℕ) (after : ℕ) (running : Option ℕ) (s : FreshRead)
    → after ≤ t
    → s.running ≡ running
    → Fresh t asks starts s
    → Fresh t (after ∷ asks) starts (read_running after running s)
read_running-Fresh t asks starts after none s le e f = record {
  served = λ a. ground (arith, f.served a);
  fresh = f.fresh;
  due = (le, f.due);
  queued = λ q. absurd (cc q);
  running = f.running;
}
read_running-Fresh t asks starts after (some u) s le e f = elim (Bool-cases (leb after u)) [
  | inl b ↦ rw b (record {
    served = λ a. ground (arith, f.served a);
    fresh = ((leb→le after u b, f.running u e), f.fresh);
    due = f.due;
    queued = f.queued;
    running = f.running;
  })
  | inr b ↦ rw b (record {
    served = λ a. ground (arith, f.served a);
    fresh = f.fresh;
    due = (le, f.due);
    queued = λ q. absurd (cc q);
    running = f.running;
  })
]

-- Whatever reads come and however loads start and settle, each reader holds a load that was started
-- at or after the time that it asked for, or waits for one that is queued.
pub Reach-Fresh :
    (t : ℕ) (asks starts : List ℕ) (s : FreshRead) → Reach t asks starts s → Fresh t asks starts s
unfolding read start
Reach-Fresh _ _ _ _ created = record {
  served = λ a. refl;
  fresh = tt;
  due = tt;
  queued = λ q. refl;
  running = λ u e. absurd (cc e);
}
Reach-Fresh _ _ _ _ (passed t asks starts s u le r) =
    let f = Reach-Fresh t asks starts s r in
    record {
      served = f.served;
      fresh = f.fresh;
      due = All-map (λ after. after ≤ t) s.waiting (λ after h. omega arith) f.due;
      queued = f.queued;
      running = f.running;
    }
Reach-Fresh _ _ _ _ (asked t asks starts s after le r) =
    read_running-Fresh t asks starts after s.running s le refl (Reach-Fresh t asks starts s r)
Reach-Fresh _ _ _ _ (started t asks starts s idle queued r) =
    let f = Reach-Fresh t asks starts s r in
    let kept = All-map (IsFresh starts) s.handed (λ p h. (h.0, inr h.1)) f.fresh in
    record {
      served = λ a. ground (arith, f.served a, times_handed-hand_out a t s.waiting s.handed);
      fresh = hand_out-IsFresh t starts s.waiting s.handed f.due kept;
      due = tt;
      queued = λ q. refl;
      running = λ u e. inl (sym (some-injective t u e));
    }
Reach-Fresh _ _ _ _ (settled t asks starts s r) =
    let f = Reach-Fresh t asks starts s r in
    record {
      served = f.served;
      fresh = f.fresh;
      due = f.due;
      queued = f.queued;
      running = λ u e. absurd (cc e);
    }
