-- ===== src/Notification/Recipients.antt =====
-- server/domain/departmentNotifications.ts: exactly who is notified of a submission.
use bahn_project_manager.Prelude.{
  ◌≡◌, ◌≢◌, ◌↔◌, ◌⊎◌, inl, inr, refl, sym, ap, subst, ◌∙◌, Bool, true, false, not, ◌&&◌, ◌||◌, List,
  [], ◌∷◌, ◌++◌, In, if◌then◌else◌, Text, text_beq, text_beq_iff, Bool-cases, arith,
}
use bahn_project_manager.Runtime.{Runtime}
use bahn_project_manager.Permissions.{
  Role, admin, editor, viewer, is_admin, is_admin_role, is_editor_role, names_department,
  can_view_project, can_edit_department, can_approve_review,
}
use bahn_project_manager.Notification.Departments.{
  GrantHolder, SubscriptionRow, SubmittedWork, WorkLabel, DepartmentNotification,
  eligible_for_department, eligible_as, is_subscribed, row_of, as_principal, is_recipient,
  notification_for, plan_for, plan_from, plan_department_notifications,
}

eligible-role :
    (rt : Runtime) (departments : List Text) (department : Text) (r : Role)
    → eligible_as rt departments department r
      ≡ is_admin_role r || (is_editor_role r && names_department rt departments department)
eligible-role rt departments department admin = refl
eligible-role rt departments department editor = refl
eligible-role rt departments department viewer = refl

-- Eligible are those who may edit the department.
eligible-can_edit_department :
    (rt : Runtime) (h : GrantHolder) (department : Text)
    → eligible_for_department rt h.grant department
      ≡ can_edit_department rt (as_principal h) department
unfolding eligible_for_department can_edit_department is_admin
eligible-can_edit_department rt h department =
    eligible-role rt h.grant.departments department h.grant.role

not-beq : (s t : Text) → s ≢ t → text_beq s t ≡ false
not-beq s t ne = elim (Bool-cases (text_beq s t)) [
  | inl b ↦ absurd (ne ((text_beq_iff s t).0 b))
  | inr b ↦ b
]

and-left : (a b : Bool) → (a && b) ≡ true → a ≡ true
and-left true b h = refl
and-left false b h = h

and-right : (a b : Bool) → (a && b) ≡ true → b ≡ true
and-right true b h = h
and-right false b h = absurd (ground (arith, h))

-- The tests of the loop, all passed.
recipient-from :
    (is_actor eligible sees wants : Bool)
    → is_actor ≡ false
    → eligible ≡ true
    → sees ≡ true
    → wants ≡ true
    → (if is_actor
        then false
        else if not eligible
        then false
        else if not sees
        then false
        else wants)
      ≡ true
recipient-from is_actor eligible sees wants a b c d = rw (a, b, c, d) refl

-- Who is to be notified: not the actor, allowed to decide the review, and subscribed.
abbrev pub Wants :
    Runtime → SubmittedWork → List SubscriptionRow → Text → Text → GrantHolder → Type 0
Wants rt work rows actor department h =
    (h.principal_id ≢ actor)
    × (can_approve_review rt (as_principal h) work.workspace department ≡ true)
    × (is_subscribed rt h.grant department (row_of rt rows h.principal_id department) ≡ true)

is_recipient_iff :
    (rt : Runtime) (work : SubmittedWork) (rows : List SubscriptionRow) (actor department : Text)
    (h : GrantHolder)
    → (is_recipient rt work rows actor department h ≡ true) ↔ Wants rt work rows actor department h
unfolding is_recipient can_approve_review
is_recipient_iff rt work rows actor department h =
    let same = eligible-can_edit_department rt h department in
    let beq = text_beq_iff h.principal_id actor in
    let edits = can_edit_department rt (as_principal h) department in
    let eligible = eligible_for_department rt h.grant department in
    let sees = can_view_project rt (as_principal h) work.workspace in
    let wants = is_subscribed rt h.grant department (row_of rt rows h.principal_id department) in
    (
      λ k. (λ e. absurd (ground (arith, k, beq, e)), ground (arith, k, same), ground (arith, k)),
      λ k.
          recipient-from (text_beq h.principal_id actor) eligible sees wants
            (not-beq h.principal_id actor (k.0)) (same ∙ and-right sees edits (k.1))
            (and-left sees edits (k.1)) (k.2),
    )

module _ {A : Type 0} where
  In-append_left : (x : A) (xs ys : List A) → In x xs → In x (xs ++ ys)
  In-append_left x (y ∷ xs) ys (inl e) = inl e
  In-append_left x (y ∷ xs) ys (inr i) = inr (In-append_left x xs ys i)
  In-append_left x [] ys i = absurd i

  In-append_right : (x : A) (xs ys : List A) → In x ys → In x (xs ++ ys)
  In-append_right x [] ys i = i
  In-append_right x (y ∷ xs) ys i = inr (In-append_right x xs ys i)

  In-append : (x : A) (xs ys : List A) → In x (xs ++ ys) → In x xs ⊎ In x ys
  In-append x [] ys i = inr i
  In-append x (y ∷ xs) ys (inl e) = inl (inl e)
  In-append x (y ∷ xs) ys (inr i) = elim (In-append x xs ys i) [
    | inl j ↦ inl (inr j)
    | inr j ↦ inr j
  ]

module _ (rt : Runtime) (work : SubmittedWork) (holders : List GrantHolder)
    (rows : List SubscriptionRow) (actor : Text) (label : WorkLabel) where
  plan_for_sound :
      (department : Text) (hs : List GrantHolder) (n : DepartmentNotification)
      → In n (plan_for rt work holders rows actor label department hs)
      → (h : GrantHolder) × In h hs
        × Wants rt work rows actor department h
        × (n ≡ notification_for rt work label department h)
  unfolding plan_for
  plan_for_sound department [] n i = absurd i
  plan_for_sound department (h ∷ hs) n i =
      elim (Bool-cases (is_recipient rt work rows actor department h)) [
        | inr no_one ↦
            let (k, found, w, e) = plan_for_sound department hs n (rw no_one at i) in
            (k, inr found, w, e)
        | inl one ↦ elim (rw one at i) [
          | inl e ↦ (h, inl refl, (is_recipient_iff rt work rows actor department h).0 one, e)
          | inr j ↦ let (k, found, w, e) = plan_for_sound department hs n j in (k, inr found, w, e)
        ]
      ]

  plan_for_complete :
      (department : Text) (hs : List GrantHolder) (h : GrantHolder)
      → In h hs
      → Wants rt work rows actor department h
      → In
          (notification_for rt work label department h)
          (plan_for rt work holders rows actor label department hs)
  unfolding plan_for
  plan_for_complete department [] h i w = absurd i
  plan_for_complete department (k ∷ hs) h (inl e) w =
      let one = (is_recipient_iff rt work rows actor department h).1 w in
      let one' : is_recipient rt work rows actor department k ≡ true =
        ap (is_recipient rt work rows actor department) (sym e) ∙ one in
      rw one' (inl (ap (notification_for rt work label department) e))
  plan_for_complete department (k ∷ hs) h (inr i) w =
      let rest = plan_for_complete department hs h i w in
      elim (Bool-cases (is_recipient rt work rows actor department k)) [
        | inl b ↦ rw b (inr rest)
        | inr b ↦ rw b rest
      ]

  -- A notification of the plan stands for one department with work and one holder.
  abbrev pub PlannedFor : List Text → DepartmentNotification → Type 0
  PlannedFor departments n =
      (department : Text) × (h : GrantHolder) × In department departments
      × In h holders
      × Wants rt work rows actor department h
      × (n ≡ notification_for rt work label department h)

  plan_from_sound :
      (departments : List Text) (n : DepartmentNotification)
      → In n (plan_from rt work holders rows actor label departments)
      → PlannedFor departments n
  unfolding plan_from
  plan_from_sound [] n i = absurd i
  plan_from_sound (department ∷ more) n i =
      elim (In-append n (plan_for rt work holders rows actor label department holders)
        (plan_from rt work holders rows actor label more) i) [
          | inl j ↦
              let (h, found, w, e) = plan_for_sound department holders n j in
              (department, h, inl refl, found, w, e)
          | inr j ↦
              let (d, h, listed, found, w, e) = plan_from_sound more n j in
              (d, h, inr listed, found, w, e)
        ]

  plan_from_complete :
      (departments : List Text) (department : Text) (h : GrantHolder)
      → In department departments
      → In h holders
      → Wants rt work rows actor department h
      → In
          (notification_for rt work label department h)
          (plan_from rt work holders rows actor label departments)
  unfolding plan_from
  plan_from_complete [] department h i found w = absurd i
  plan_from_complete (d ∷ more) department h (inl e) found w =
      In-append_left (notification_for rt work label department h)
        (plan_for rt work holders rows actor label d holders)
        (plan_from rt work holders rows actor label more)
        (subst
          (λ k.
            In (notification_for rt work label department h)
              (plan_for rt work holders rows actor label k holders))
          e (plan_for_complete department holders h found w))
  plan_from_complete (d ∷ more) department h (inr i) found w =
      In-append_right (notification_for rt work label department h)
        (plan_for rt work holders rows actor label d holders)
        (plan_from rt work holders rows actor label more)
        (plan_from_complete more department h i found w)

  -- A submission notifies exactly, for each department with work, the holders other than the actor who
  -- may now decide the department's review in the workspace of the project and are subscribed to it.
  pub recipients_iff :
      (n : DepartmentNotification)
      → In n (plan_department_notifications rt work holders rows actor label)
        ↔ PlannedFor work.departments n
  unfolding plan_department_notifications
  recipients_iff n = (
    λ i. plan_from_sound work.departments n i,
    λ (d, h, listed, found, w, e).
        subst (λ m. In m (plan_from rt work holders rows actor label work.departments)) (sym e)
          (plan_from_complete work.departments d h listed found w),
  )
