-- ===== src/Examples/Reviews.antt =====
-- The review of a department that is created and edited.
use bahn_project_manager.Prelude.{◌≡◌, refl, false, some, [], ◌∷◌, codes}
use bahn_project_manager.Event.Slug.{slugify}
use bahn_project_manager.Permissions.{can_edit_department}
use bahn_project_manager.Project.{ReviewField}
use bahn_project_manager.Store.{Db, MutationResult, ok}
use bahn_project_manager.Service.Reviews.{
  ReviewInput, update_review_by, create_review_by, update_review_row, create_review_row,
}
use bahn_project_manager.Service.ReviewLog.{Approved, update_review_by-Approved}
use bahn_project_manager.Examples.{anna}
use bahn_project_manager.Examples.Writes.{plain_env, tables, or_tables}

abbrev itk_open : ReviewInput
itk_open = record {
  project_id = 1;
  department = codes "ITK";
  expected_version = 1;
  fields = (ReviewField.status, some (codes "offen")) ∷ [];
  key = codes "k4";
}

abbrev opened : MutationResult × Db
opened = or_tables (create_review_by plain_env anna itk_open (codes "x") tables)

opened_ok : create_review_by plain_env anna itk_open (codes "x") tables ≡ ok opened
unfolding create_review_by create_review_row can_edit_department slugify
opened_ok = refl

opened_fresh : opened.0.replayed ≡ false
unfolding create_review_by create_review_row can_edit_department slugify
opened_fresh = refl

abbrev itk_done : ReviewInput
itk_done = record itk_open {
  expected_version = 2;
  fields = (ReviewField.status, some (codes "fertig")) ∷ [];
  key = codes "k5";
}

abbrev done : MutationResult × Db
done = or_tables (update_review_by plain_env anna itk_done (codes "x") opened.1)

done_ok : update_review_by plain_env anna itk_done (codes "x") opened.1 ≡ ok done
unfolding create_review_by create_review_row update_review_by update_review_row can_edit_department
    slugify
done_ok = refl

done_fresh : done.0.replayed ≡ false
unfolding create_review_by create_review_row update_review_by update_review_row can_edit_department
    slugify
done_fresh = refl

update_review_by-Approved_example : Approved plain_env anna itk_done opened.1
update_review_by-Approved_example =
    update_review_by-Approved plain_env anna itk_done (codes "x") opened.1 done done_ok done_fresh
