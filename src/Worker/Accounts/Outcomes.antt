-- ===== src/Worker/Accounts/Outcomes.antt =====
-- Logins: what each answer of verify_phone_code shows.
use mathlib.Core.Path.{subst}
use rubigram.Base.{
  if◌then◌else◌, Bool-cases, if_split, filter, find?, is_empty, ℕ, String, ◌≡◌, refl, sym, ◌∙◌, inl,
  inr, ap, Bool, true, false, Option, none, some, List, [], ◌∷◌, ◌++◌, str_eq, eq_refl,
}
use rubigram.Base.Errors.{Result, ok, err}
use rubigram.Worker.Model.{Account}
use rubigram.Worker.Db.{Db}
use rubigram.Worker.Accounts.Rows.{Signed, save_account}
use rubigram.Worker.Accounts.Rows.Keyed.{IsKeyed}
use rubigram.Worker.Accounts.Rows.Saved.{IsSaved, SavedOrSame, save_account-SavedOrSame}
use rubigram.Worker.Accounts.Login.{
  RubigramError, code_is_invalid, code_is_expired, code_is_used, invalid_input, connection_error,
  too_requests, other_error, Answer, answered, refused, crashed, cancelled, LoginFailure,
  wrong_code, expired_code, used_code, invalid_number_or_code, no_connection, invalid_phone,
  has_pass_key, session_expired, digits_only, name_missing, signup_incomplete, save_too_slow,
  too_many, reported, code_not_sent, passed_on, unexpected, integrity_error, timed_out, login_error,
  keeps_login, Pending, Logins, normalize_verification_code, find_pending, stop_client, open_client,
  other_than, set_pending, forget_pending, forget, Remote, Request, state_of, resumed, resume,
  client_or_resume, login_client, VerifyOutcome, requires_signup, logged_in, after_save,
  store_login, with_me, finish_login, after_sign_in, signing_in, verify_phone_code,
}

abbrev IsPending : String → Logins → Type 0
IsPending name l = (p : Pending) × (find_pending name l ≡ some p)

abbrev IsForgotten : String → Logins → Type 0
IsForgotten name l = find_pending name l ≡ none

-- An account that was stored for the session of a login.
abbrev IsStored : Remote → String → Account → Db → Db → Type 0
IsStored r name a db db' =
    (x : Signed) × (x.session_name ≡ name)
    × (x.session_string ≡ r.session_string)
    × IsSaved x a db db'

-- What the failures show of the logins afterwards; the others do not occur.
abbrev FailureShows : String → LoginFailure → Logins → Type 0
FailureShows name wrong_code m = IsPending name m
FailureShows name expired_code m = IsPending name m
FailureShows name used_code m = IsPending name m
FailureShows name (too_many wait) m = IsPending name m
FailureShows name invalid_number_or_code m = IsForgotten name m
FailureShows name no_connection m = IsForgotten name m
FailureShows name (reported message) m = IsForgotten name m
FailureShows name integrity_error m = IsForgotten name m
FailureShows name session_expired m = IsForgotten name m
FailureShows name (passed_on e) m = IsForgotten name m
FailureShows name digits_only m = Unit
FailureShows name unexpected m = Unit
FailureShows name timed_out m = Unit
FailureShows name _ m = ⊥

unfoldable pub VerifyShows :
    ℕ → Remote → String → Db → Result LoginFailure VerifyOutcome × Logins → Type 0
VerifyShows now r name db (ok (logged_in a), m) =
    IsStored r name a db m.db × IsForgotten name m × (r.has_auth ≡ true)
VerifyShows now r name db (ok (requires_signup phone session), m) =
    (m.db ≡ db) × IsPending name m × (session ≡ name) × (r.has_auth ≡ false)
VerifyShows now r name db (err save_too_slow, m) =
    IsForgotten name m
    × (r.in_time ≡ false)
    × ((x : Signed) × (x.session_name ≡ name)
        × (x.session_string ≡ r.session_string)
        × (m.db ≡ (save_account now x db).1))
VerifyShows now r name db (err e, m) = (m.db ≡ db) × FailureShows name e m

dropped-none :
    (name : String) (ps : List Pending)
    → find? (λ p. str_eq p.session_name name) (filter (other_than name) ps) ≡ none
dropped-none name [] = refl
dropped-none name (p ∷ ps) = elim (Bool-cases (str_eq p.session_name name)) [
  | inl e ↦ rw e (dropped-none name ps)
  | inr e ↦ rw e (rw e (dropped-none name ps))
]

forget-IsForgotten : (name : String) (l : Logins) → IsForgotten name (forget name l)
unfolding forget stop_client find_pending
forget-IsForgotten name l = go (find_pending name l) refl
  where
    go : (o : Option Pending) → find_pending name l ≡ o → IsForgotten name (forget_pending name l o)
    go none e = e
    go (some p) e = dropped-none name l.pending

forget-db : (name : String) (l : Logins) → (forget name l).db ≡ l.db
unfolding forget stop_client
forget-db name l = go (find_pending name l)
  where
    go : (o : Option Pending) → (forget_pending name l o).db ≡ l.db
    go none = refl
    go (some p) = refl

found-last :
    (name : String) (p : Pending) (ps : List Pending)
    → str_eq p.session_name name ≡ true
    → find? (λ q. str_eq q.session_name name) (filter (other_than name) ps ++ p ∷ []) ≡ some p
found-last name p [] e = rw e refl
found-last name p (q ∷ qs) e = elim (Bool-cases (str_eq q.session_name name)) [
  | inl t ↦ rw t (found-last name p qs e)
  | inr t ↦ rw t (rw t (found-last name p qs e))
]

-- What `_login_client` shows.
abbrev ClientShows : String → Db → Result LoginFailure Pending × Logins → Type 0
ClientShows name db (ok p, m) = (m.db ≡ db) × IsPending name m
ClientShows name db (err e, m) = (m.db ≡ db) × FailureShows name e m

login_client-Shows :
    (r : Remote) (q : Request) (l : Logins) → ClientShows q.session_name l.db (login_client r q l)
unfolding login_client set_pending open_client stop_client find_pending
login_client-Shows r q l = go (find_pending q.session_name l) refl
  where
    resume-Shows :
        (x : Answer (Unit {0}))
        → find_pending q.session_name l ≡ none
        → ClientShows q.session_name l.db (resume q l x)
    resume-Shows (answered u) e = (
      refl,
      (
        resumed q l.next_client,
        found-last q.session_name (resumed q l.next_client) l.pending (eq_refl q.session_name),
      ),
    )
    resume-Shows (refused x) e = (refl, e)
    resume-Shows crashed e = (refl, tt)
    resume-Shows cancelled e = (refl, tt)

    go :
        (o : Option Pending)
        → find_pending q.session_name l ≡ o
        → ClientShows q.session_name l.db (client_or_resume r q l o)
    go (some p) e = (refl, (p, e))
    go none e =
        if_split (ClientShows q.session_name l.db) (is_empty (state_of q.login_state).login_state)
          (err session_expired, l) (resume q l r.started) (λ t. (refl, e))
          (λ t. resume-Shows r.started e)

-- A refusal comes to its failure.
refused-Shows :
    (now : ℕ) (name : String) (db : Db) (r : Remote) (e : RubigramError) (l : Logins)
    → l.db ≡ db
    → IsPending name l
    → VerifyShows now r name db (err (login_error e), (if keeps_login e then l else forget name l))
unfolding VerifyShows login_error keeps_login
refused-Shows now name db r code_is_invalid l s p = (s, p)
refused-Shows now name db r code_is_expired l s p = (s, p)
refused-Shows now name db r code_is_used l s p = (s, p)
refused-Shows now name db r (too_requests wait) l s p = (s, p)
refused-Shows now name db r invalid_input l s p = (forget-db name l ∙ s, forget-IsForgotten name l)
refused-Shows now name db r connection_error l s p =
    (forget-db name l ∙ s, forget-IsForgotten name l)
refused-Shows now name db r (other_error m) l s p =
    (forget-db name l ∙ s, forget-IsForgotten name l)

-- A failure of `_login_client` is one of the call.
failed-Shows :
    (now : ℕ) (name : String) (db : Db) (r : Remote) (e : LoginFailure) (l : Logins)
    → ClientShows name db (err e, l)
    → VerifyShows now r name db (err e, l)
unfolding VerifyShows
failed-Shows now name db r save_too_slow l h = absurd h.1
failed-Shows now name db r wrong_code l h = h
failed-Shows now name db r expired_code l h = h
failed-Shows now name db r used_code l h = h
failed-Shows now name db r invalid_number_or_code l h = h
failed-Shows now name db r no_connection l h = h
failed-Shows now name db r invalid_phone l h = h
failed-Shows now name db r has_pass_key l h = h
failed-Shows now name db r session_expired l h = h
failed-Shows now name db r digits_only l h = h
failed-Shows now name db r name_missing l h = h
failed-Shows now name db r signup_incomplete l h = h
failed-Shows now name db r (too_many w) l h = h
failed-Shows now name db r (reported m) l h = h
failed-Shows now name db r (code_not_sent m) l h = h
failed-Shows now name db r (passed_on x) l h = h
failed-Shows now name db r unexpected l h = h
failed-Shows now name db r timed_out l h = h
failed-Shows now name db r integrity_error l h = h

module _ (now : ℕ) (r : Remote) (q : Request) where
  after_save-Shows :
      (x : Signed) (l : Logins) (db : Db) (in_time : Bool) (o : Option Account × Db)
      → IsForgotten q.session_name l
      → r.has_auth ≡ true
      → r.in_time ≡ in_time
      → x.session_name ≡ q.session_name
      → x.session_string ≡ r.session_string
      → save_account now x db ≡ o
      → SavedOrSame x db o
      → VerifyShows now r q.session_name db (after_save in_time l o)
  unfolding VerifyShows SavedOrSame find_pending
  after_save-Shows x l db false (o, db') gone auth t n s q h =
      (gone, t, (x, n, s, ap (λ y. y.1) (sym q)))
  after_save-Shows x l db true (none, db') gone auth t n s q h = (h, gone)
  after_save-Shows x l db true (some a, db') gone auth t n s q h = ((x, n, s, h), gone, auth)

  finish-Shows :
      (username phone : String) (l : Logins) (db : Db)
      → l.db ≡ db
      → IsKeyed db
      → r.has_auth ≡ true
      → VerifyShows now r q.session_name db (finish_login now r username phone q.session_name l)
  unfolding finish_login VerifyShows
  finish-Shows username phone l db same keyed auth = go r.me
    where
      done : Logins
      done = forget q.session_name l

      signed : (guid display : String) → Signed
      signed guid display = record {
        username = username;
        phone = phone;
        session_name = q.session_name;
        session_string = r.session_string;
        user_guid = guid;
        display_name = display;
      }

      stored :
          (guid display : String)
          → VerifyShows now r q.session_name db
              (store_login now r username phone q.session_name guid display l)
      stored guid display =
          after_save-Shows (signed guid display) done db r.in_time
            (save_account now (signed guid display) done.db) (forget-IsForgotten q.session_name l)
            auth refl refl refl
            (ap (λ d. save_account now (signed guid display) d)
              (sym (forget-db q.session_name l ∙ same)))
            (subst
              (λ (d : Db).
                SavedOrSame (signed guid display) db (save_account now (signed guid display) d))
              (sym (forget-db q.session_name l ∙ same))
              (save_account-SavedOrSame now (signed guid display) db keyed))

      go :
          (x : Answer (Option (String × String × String)))
          → VerifyShows now r q.session_name db (with_me now r username phone q.session_name l x)
      go (answered (some (guid, first, last))) = stored _ _
      go (answered none) = stored _ _
      go (refused e) = stored _ _
      go crashed = (same, tt)
      go cancelled = (same, tt)

  -- Each answer of `verify_phone_code` shows what was done. A login is stored in an active row, with
  -- the session's secret, and is no longer pending; a phone without an account leaves the login
  -- pending and the tables as they are. After a wrong, expired or used code, or too many requests,
  -- the login is still pending; after another refusal it is forgotten; the tables stay. A save that
  -- takes too long is reported, and its rows are those of `save_account` all the same. Ids of rows are keys.
  pub verify_phone_code-Shows :
      (code : String) (l : Logins)
      → IsKeyed l.db
      → VerifyShows now r q.session_name l.db (verify_phone_code now r q code l)
  unfolding verify_phone_code VerifyShows
  verify_phone_code-Shows code l keyed =
      if_split (VerifyShows now r q.session_name l.db) (is_empty digits) (err digits_only, l)
        (signing_in now r q digits (login_client r q l)) (λ t. (refl, tt))
        (λ t. go digits (login_client r q l) (login_client-Shows r q l))
    where
      digits : String
      digits = normalize_verification_code code

      signed_in :
          (p : Pending) (k : Logins) (x : Answer (Unit {0}))
          → k.db ≡ l.db
          → IsPending q.session_name k
          → VerifyShows now r q.session_name l.db (after_sign_in now r q p k x)
      signed_in p k (refused e) s h = refused-Shows now q.session_name l.db r e k s h
      signed_in p k crashed s h = (forget-db q.session_name k ∙ s, tt)
      signed_in p k cancelled s h = (s, tt)
      signed_in p k (answered u) s h =
          if_split (VerifyShows now r q.session_name l.db) _ _ _
            (λ t. finish-Shows _ _ k l.db s keyed t) (λ t. (s, h, refl, t))

      go :
          (text : String) (x : Result LoginFailure Pending × Logins)
          → ClientShows q.session_name l.db x
          → VerifyShows now r q.session_name l.db (signing_in now r q text x)
      go text (err e, k) h = failed-Shows now q.session_name l.db r e k h
      go text (ok p, k) h = signed_in p k (r.sign_in _ q.transaction_hash text) h.0 h.1
