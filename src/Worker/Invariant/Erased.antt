-- ===== src/Worker/Invariant/Erased.antt =====
-- The account requests of accounts.py are calm: a new account, and a deletion with its cascade.
use rubigram.Base.{
  Option-cases, count, filter, ℕ, String, ◌≤◌, refl, inl, inr, Bool, Option, List, [], ◌∷◌, arith,
}
use rubigram.Worker.Model.{Account}
use rubigram.Worker.Db.{Db}
use rubigram.Worker.Accounts.Rows.{
  Signed, save_existing, save_new, save_account, selects, cascade, delete_doomed, delete_rows,
  delete_worker_account,
}
use rubigram.Worker.Invariant.Kept.{JobsKept-refl, of_job, has_id, Calm, Calm-same, Calm-refl}

count-filter_le {ℓ} :
    {A : Type ℓ} (p q : A → Bool) (xs : List A) → count p (filter q xs) ≤ count p xs
count-filter_le p q [] = omega arith
count-filter_le p q (x ∷ xs) = ground (arith, count-filter_le p q xs)

doomed-Calm : (doomed : List Account) (db : Db) → Calm db (delete_doomed doomed db)
unfolding cascade
doomed-Calm [] db = Calm-refl db
doomed-Calm (a ∷ as_) db = record {
  jobs = JobsKept-refl db.jobs;
  owned = λ k. count-filter_le (of_job k) _ db.items;
  named = λ k. count-filter_le (has_id k) _ db.items;
  next = refl;
  next_item = refl;
}

-- The items go with their accounts; the jobs stay as they were.
pub delete-Calm :
    (id : Option ℕ) (session phone : Option String) (db : Db)
    → Calm db (delete_worker_account id session phone db).1
unfolding delete_worker_account delete_rows
delete-Calm id session phone db = elim (Option-cases (selects id session phone)) [
  | inl e ↦ rw (e, delete_worker_account) (Calm-refl db)
  | inr (p, e) ↦ rw (e, delete_worker_account) (doomed-Calm (filter p db.accounts) db)
]

pub save-Calm : (now : ℕ) (x : Signed) (db : Db) → Calm db (save_account now x db).1
unfolding save_account save_existing save_new
save-Calm now x db = Calm-same (ground arith) (ground arith) (ground arith) (ground arith)
