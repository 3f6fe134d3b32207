-- ===== src/Worker/Views/Replayed.antt =====
-- Views: which requests change the tables, and a nonce that is offered again.
use rubigram.Internal.Signing.{
  SignatureFailure, signature_error, unicode_error, type_error, VerifiedSignature,
}
use rubigram.Worker.Replay.{is_known, remember-known}
use mathlib.Core.Path.{subst}
use rubigram.Base.{
  Bool-cases, if_split, any, ℕ, ◌≤◌, String, ◌≡◌, refl, sym, ap, ◌∙◌, ◌⊎◌, inl, inr, Bool, true,
  false, ◌&&◌, Option, none, some, List, [], ◌∷◌, arith, str_eq, eq_refl,
}
use rubigram.Base.Errors.{Result, ok, err}
use rubigram.Worker.Model.{Account, Job}
use rubigram.Worker.Db.{Db, Settings}
use rubigram.Worker.Jobs.{
  ServiceError, Payload, add_items, Order, validate, find_key, insert_order, announce_order,
  needs_accounts, is_none, place_with, chosen_accounts, place_once, place_valid,
  create_membership_job,
}
use rubigram.Worker.Accounts.Rows.{
  selects, cascade, delete_doomed, Deletion, delete_rows, delete_worker_account,
}
use rubigram.Worker.Views.{
  HttpRequest, Parsed, Keys, Query, Reply, error_reply, status_of, View, internal_orders_view,
  internal_available_accounts_view, internal_health_view, internal_account_stats_view,
  internal_delete_account_view, internal_order_status_view, allows, text_key, deletion_reply,
  delete_reply, payload_of, verified, signed_payload, handle, serve, with_payload, after_verify,
  after_nonce,
}
use rubigram.Base.Int.{ℤ, pos, negsuc}
use rubigram.Worker.Nonces.{remember_nonce}

abbrev pub duplicate : Reply
duplicate = error_reply 409 "duplicate request nonce"

create-nonces :
    (s : Settings) (locked : ℕ → Bool) (now : ℕ) (p : Payload) (db : Db)
    → (create_membership_job s locked now p db).1.nonces ≡ db.nonces
unfolding create_membership_job place_valid place_once place_with announce_order insert_order
    add_items
create-nonces s locked now p db = by_order (validate s p)
  where
    by_key : (o : Order) (x : Option Job) → (place_once s locked now o x db).1.nonces ≡ db.nonces
    by_key o (some j) = refl
    by_key o none =
        let accounts = chosen_accounts s locked now o db in
        if_split (λ (x : Result ServiceError Job × Db). x.1.nonces ≡ db.nonces)
          (needs_accounts o.action && is_none accounts) _ _ (λ t. refl) (λ t. refl)

    by_order :
        (x : Result ServiceError Order) → (place_valid s locked now x db).1.nonces ≡ db.nonces
    by_order (err e) = refl
    by_order (ok o) = by_key o (find_key o.idempotency_key db)

delete-nonces :
    (id : Option ℕ) (session phone : Option String) (db : Db)
    → (delete_worker_account id session phone db).1.nonces ≡ db.nonces
unfolding delete_worker_account delete_rows cascade
delete-nonces id session phone db = by_key (selects id session phone) refl
  where
    by_rows : (xs : List Account) → (delete_doomed xs db).nonces ≡ db.nonces
    by_rows [] = refl
    by_rows (x ∷ xs) = refl

    by_key :
        (x : Option (Account → Bool))
        → selects id session phone ≡ x
        → (delete_worker_account id session phone db).1.nonces ≡ db.nonces
    by_key none e = rw (e, delete_worker_account) refl
    by_key (some p) e = rw (e, delete_worker_account) (by_rows _)

delete_reply-nonces : (k : Keys) (db : Db) → (delete_reply k db).1.nonces ≡ db.nonces
unfolding delete_reply
delete_reply-nonces k db = go k.account_id refl
  where
    replied :
        (x : Option Deletion × Db)
        → x.1.nonces ≡ db.nonces
        → (deletion_reply x).1.nonces ≡ db.nonces
    replied (none, d) h = h
    replied (some x, d) h = h

    go : (x : Option (Option ℤ)) → k.account_id ≡ x → (delete_reply k db).1.nonces ≡ db.nonces
    go none e =
        rw (e, delete_reply)
          (replied _ (delete-nonces none (text_key k.session_name) (text_key k.phone) db))
    go (some none) e = rw (e, delete_reply) refl
    go (some (some (pos n))) e =
        rw (e, delete_reply)
          (replied _ (delete-nonces (some n) (text_key k.session_name) (text_key k.phone) db))
    go (some (some (negsuc n))) e = rw (e, delete_reply) refl

module _ {J : Type 0} (hmac : String → List ℕ → String) (loads : List ℕ → Parsed J)
    (order_of : J → Payload) (keys_of : J → Keys) (query_of : J → Query) (secret : String)
    (max_age : ℕ) (s : Settings) (locked : ℕ → Bool) where
  -- `serve`, and what it is made of, with the parameters.
  abbrev answer : View → ℕ → HttpRequest → Db → Reply × Db
  answer = serve hmac loads order_of keys_of query_of secret max_age s locked

  abbrev signature : ℕ → HttpRequest → Result SignatureFailure VerifiedSignature
  signature = verified hmac loads order_of keys_of query_of secret max_age s locked

  abbrev finish : View → ℕ → Result Reply J × Db → Reply × Db
  finish = with_payload hmac loads order_of keys_of query_of secret max_age s locked

  abbrev opened : HttpRequest → Db → Result SignatureFailure VerifiedSignature → Result Reply J × Db
  opened = after_verify hmac loads order_of keys_of query_of secret max_age s locked

  handle-nonces :
      (v : View) (now : ℕ) (j : J) (db : Db)
      → (handle hmac loads order_of keys_of query_of secret max_age s locked v now j db).1.nonces
        ≡ db.nonces
  unfolding handle
  handle-nonces internal_orders_view now j db = create-nonces s locked now (order_of j) db
  handle-nonces internal_available_accounts_view now j db = refl
  handle-nonces internal_health_view now j db = refl
  handle-nonces internal_account_stats_view now j db = refl
  handle-nonces internal_delete_account_view now j db = delete_reply-nonces (keys_of j) db
  handle-nonces (internal_order_status_view id) now j db = refl

  finish-nonces :
      (v : View) (now : ℕ) (x : Result Reply J × Db) → (finish v now x).1.nonces ≡ x.1.nonces
  finish-nonces v now (err r, db) = refl
  finish-nonces v now (ok j, db) = handle-nonces v now j db

  -- What is let through to a view has a signature, and a nonce that is new and is spent.
  unfoldable pub IsGuarded : ℕ → HttpRequest → Db → Reply × Db → Type 0
  IsGuarded now q db x =
      ((x.1 ≡ db) × (400 ≤ status_of x.0))
      ⊎ ((v : VerifiedSignature) × (signature now q ≡ ok v)
          × (is_known v.nonce db ≡ false)
          × (is_known v.nonce x.1 ≡ true))

  -- A nonce that is known, or one that is not.
  known-refused : (n : String) (db : Db) → is_known n db ≡ true → remember_nonce n db ≡ (false, db)
  unfolding remember_nonce
  known-refused n db h = rw (h, remember_nonce) refl

  spent :
      (w : View) (now : ℕ) (q : HttpRequest) (n : String) (db : Db)
      → is_known n
          (finish w now (
            after_nonce hmac loads order_of keys_of query_of secret max_age s locked q
              (remember_nonce n db))).1
        ≡ true
  spent w now q n db = go (remember_nonce n db) refl
    where
      now_known : is_known n (remember_nonce n db).1 ≡ true
      now_known = remember-known n n db ∙ ground (arith, eq_refl n)

      go :
          (x : Bool × Db)
          → remember_nonce n db ≡ x
          → is_known n
              (finish w now
                (after_nonce hmac loads order_of keys_of query_of secret max_age s locked q x)).1
            ≡ true
      go (false, d) e = ap (λ (y : Bool × Db). is_known n y.1) (sym e) ∙ now_known
      go (true, d) e =
          ap (λ (ks : List String). any (λ k. str_eq k n) ks)
            (finish-nonces w now (payload_of (loads q.body), d))
          ∙ ap (λ (y : Bool × Db). is_known n y.1) (sym e)
          ∙ now_known

  nonce-Guarded :
      (w : View) (now : ℕ) (q : HttpRequest) (db : Db) (v : VerifiedSignature)
      → signature now q ≡ ok v
      → IsGuarded now q db (finish w now (opened q db (ok v)))
  unfolding IsGuarded status_of
  nonce-Guarded w now q db v e = elim (Bool-cases (is_known v.nonce db)) [
    | inl t ↦ rw (known-refused v.nonce db t) (inl (refl, ground arith))
    | inr t ↦ inr (v, e, t, spent w now q v.nonce db)
  ]

  verify-Guarded :
      (w : View) (now : ℕ) (q : HttpRequest) (db : Db)
      (x : Result SignatureFailure VerifiedSignature)
      → signature now q ≡ x
      → IsGuarded now q db (finish w now (opened q db x))
  unfolding IsGuarded status_of
  verify-Guarded w now q db (err (signature_error m)) e = inl (refl, ground arith)
  verify-Guarded w now q db (err unicode_error) e = inl (refl, ground arith)
  verify-Guarded w now q db (err type_error) e = inl (refl, ground arith)
  verify-Guarded w now q db (ok v) e = nonce-Guarded w now q db v e

  -- A request to a view either changes nothing and is answered with an error, or it has a valid
  -- signature and a nonce that was new and is known from then on.
  pub serve-IsGuarded :
      (w : View) (now : ℕ) (q : HttpRequest) (db : Db) → IsGuarded now q db (answer w now q db)
  unfolding serve signed_payload IsGuarded status_of
  serve-IsGuarded w now q db =
      if_split (IsGuarded now q db) (allows w q.method) _ _
        (λ t. verify-Guarded w now q db (signature now q) refl) (λ t. inl (refl, ground arith))

  let_through :
      (u : View) (time : ℕ) (r : HttpRequest) (d : Db) (x : VerifiedSignature)
      → allows u r.method ≡ true
      → signature time r ≡ ok x
      → answer u time r d ≡ finish u time (opened r d (ok x))
  unfolding serve signed_payload
  let_through u time r d x g h = rw (g, serve, signed_payload, h) refl

  -- A nonce is accepted once: after any request with its signature, to whatever view, a signed
  -- request with the same nonce is refused as a duplicate, and changes nothing. The requests have
  -- the methods that the views take.
  pub serve_twice :
      (w w' : View) (now now' : ℕ) (q q' : HttpRequest) (db : Db) (v v' : VerifiedSignature)
      → allows w q.method ≡ true
      → allows w' q'.method ≡ true
      → signature now q ≡ ok v
      → signature now' q' ≡ ok v'
      → v.nonce ≡ v'.nonce
      → answer w' now' q' (answer w now q db).1 ≡ (duplicate, (answer w now q db).1)
  serve_twice w w' now now' q q' db v v' a a' e e' same =
      refused (answer w now q db).1
        (subst (λ (n : String). is_known n (answer w now q db).1 ≡ true) same known)
    where
      known : is_known v.nonce (answer w now q db).1 ≡ true
      known = rw (let_through w now q db v a e) (spent w now q v.nonce db)

      refused : (d : Db) → is_known v'.nonce d ≡ true → answer w' now' q' d ≡ (duplicate, d)
      refused d k =
          let_through w' now' q' d v' a' e'
          ∙ ap
              (λ (y : Bool × Db).
                finish w' now'
                  (after_nonce hmac loads order_of keys_of query_of secret max_age s locked q' y))
              (known-refused v'.nonce d k)
