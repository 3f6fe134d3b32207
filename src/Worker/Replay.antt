-- ===== src/Worker/Replay.antt =====
-- `remember_nonce` and the table of nonces it keeps.
use mathlib.Core.Path.{subst}
use rubigram.Base.{
  Bool-cases, any, any-append-one, String, ◌≡◌, refl, ◌≢◌, inl, inr, Bool, true, false, not, ◌||◌,
  arith, str_eq, eq_iff, eq_refl,
}
use rubigram.Worker.Db.{Db}
use rubigram.Worker.Nonces.{remember_nonce}

abbrev pub is_known : String → Db → Bool
is_known n db = any (λ k. str_eq k n) db.nonces

pub remember-answer : (n : String) (db : Db) → (remember_nonce n db).0 ≡ not (is_known n db)
unfolding remember_nonce
remember-answer n db = ground arith

pub remember-known :
    (n m : String) (db : Db) → is_known m (remember_nonce n db).1 ≡ (is_known m db || str_eq n m)
unfolding remember_nonce
remember-known n m db = elim (Bool-cases (is_known n db)) [
  | inl e ↦ rw (e, remember_nonce) (known e)
  | inr e ↦ rw (e, remember_nonce) (any-append-one (λ k. str_eq k m) db.nonces n)
]
  where
    known : is_known n db ≡ true → is_known m db ≡ (is_known m db || str_eq n m)
    known e = elim (Bool-cases (str_eq n m)) [
      | inl t ↦ rw (subst (λ x. is_known x db ≡ true) ((eq_iff n m).0 t) e) refl
      | inr f ↦ rw f (ground arith)
    ]

-- A nonce that was offered, whatever the answer, is refused from then on; what another nonce is
-- answered does not change.
pub remember_nonce_once :
    (n m : String) (db : Db)
    → ((remember_nonce n (remember_nonce n db).1).0 ≡ false)
      × (n ≢ m → (remember_nonce m (remember_nonce n db).1).0 ≡ (remember_nonce m db).0)
remember_nonce_once n m db = (
  rw (remember-answer n (remember_nonce n db).1, remember-known n n db, eq_refl n) (ground arith),
  λ h.
      rw
        (
          remember-answer m (remember_nonce n db).1,
          remember-known n m db,
          remember-answer m db,
          other h,
        )
        (ground arith),
)
  where
    other : n ≢ m → str_eq n m ≡ false
    other h = elim (Bool-cases (str_eq n m)) [ inl e ↦ absurd (h ((eq_iff n m).0 e)) | inr e ↦ e ]
