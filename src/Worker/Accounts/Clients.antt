-- ===== src/Worker/Accounts/Clients.antt =====
-- Logins: the clients that run, beside the pending logins.
use mathlib.Core.Path.{subst}
use rubigram.Base.{
  ◌==◌, if◌then◌else◌, filter, All-filter_keep, All-append, is_empty, ℕ, suc, ◌<◌, String, ◌≡◌, ◌≢◌,
  refl, sym, ap, ◌∙◌, Bool, true, false, not, Option, none, some, List, [], ◌∷◌, ◌++◌, map, arith,
  str_eq,
}
use rubigram.Base.Errors.{Result, ok, err, ◌>>=◌}
use rubigram.Worker.Model.{Account}
use rubigram.Worker.Db.{Db}
use rubigram.Utils.Phone.{normalize_phone_number}
use rubigram.Worker.Accounts.Rows.{save_account}
use rubigram.Worker.Accounts.Login.{
  Answer, answered, refused, crashed, cancelled, LoginFailure, keeps_login, Pending, Logins,
  find_pending, stop_client, open_client, other_than, set_pending, forget_pending, forget, Sent,
  code_sent, after_code, start_phone_login, Remote, Request, resumed, resume, client_or_resume,
  login_client, after_save, store_login, with_me, finish_login, after_sign_in, signing_in,
  verify_phone_code, after_sign_up, signing_up, complete_phone_signup, cancel_pending_login,
}
use rubigram.Worker.Accounts.Clients.Apart.{
  client_of, Distinct, Below, Distinct-filter, drop-same, stop-fresh, none-dropped, Distinct-append,
}
pub mod Apart

-- What the calls keep.
pub record IsTidy (l : Logins) : Type 0 where
  pub same : l.running ≡ map client_of l.pending
  pub distinct : Distinct l.pending
  pub below : Below l.next_client l.pending

forget-IsTidy : (name : String) (l : Logins) → IsTidy l → IsTidy (forget name l)
unfolding forget stop_client find_pending
forget-IsTidy name l h = go (find_pending name l) refl
  where
    go : (o : Option Pending) → find_pending name l ≡ o → IsTidy (forget_pending name l o)
    go none e = h
    go (some p) e = record {
      same =
          ap (filter (λ d. not (d == p.client))) h.same ∙ drop-same name l.pending p h.distinct e;
      distinct = Distinct-filter (other_than name) l.pending h.distinct;
      below = All-filter_keep (λ p. p.client < l.next_client) (other_than name) l.pending h.below;
    }

Below-suc : (n : ℕ) (ps : List Pending) → Below n ps → Below (suc n) ps
Below-suc n [] h = tt
Below-suc n (p ∷ ps) h = (omega (arith, h.0), Below-suc n ps h.1)

-- A client that is started and stopped again leaves things as they are.
stopped-IsTidy : (l : Logins) → IsTidy l → IsTidy (stop_client l.next_client (open_client l))
unfolding stop_client open_client
stopped-IsTidy l h = record {
  same =
      ap (λ r. filter (λ d. not (d == l.next_client)) (r ++ l.next_client ∷ [])) h.same
      ∙ stop-fresh l.next_client l.pending h.below;
  distinct = h.distinct;
  below = Below-suc l.next_client l.pending h.below;
}

map-last :
    (ps : List Pending) (p : Pending)
    → map client_of (ps ++ p ∷ []) ≡ map client_of ps ++ p.client ∷ []
map-last [] p = refl
map-last (q ∷ qs) p = ap (λ xs. q.client ∷ xs) (map-last qs p)

-- A client that is started for a login under a new name.
opened-IsTidy :
    (l : Logins) (p : Pending)
    → IsTidy l
    → find_pending p.session_name l ≡ none
    → p.client ≡ l.next_client
    → IsTidy (set_pending p (open_client l))
unfolding set_pending open_client find_pending
opened-IsTidy l p h new e =
    let kept = none-dropped p.session_name l.pending new in
    rw kept (record {
      same = rw h.same (rw (← e) (sym (map-last l.pending p)));
      distinct = Distinct-append l.pending p h.distinct new (rw e h.below);
      below =
          All-append (λ q. q.client < suc l.next_client) l.pending (p ∷ [])
            (Below-suc l.next_client l.pending h.below) (omega (arith, e), tt);
    })

if-keeps {ℓ κ} :
    {A : Type ℓ} (P : A → Type κ) (b : Bool) (x y : A) → P x → P y → P (if b then x else y)
if-keeps P true x y h k = h
if-keeps P false x y h k = k

abbrev Tidy {ℓ} : {A : Type ℓ} → A × Logins → Type 0
Tidy x = IsTidy x.1

start-IsTidy :
    (username phone proxy name state : String) (sent : Answer Sent) (l : Logins)
    → IsTidy l
    → find_pending name l ≡ none
    → sent ≢ cancelled
    → IsTidy (start_phone_login username phone proxy name state sent l).1
unfolding start_phone_login code_sent
start-IsTidy username phone proxy name state sent l h new done =
    if-keeps Tidy (is_empty (normalize_phone_number phone)) _ _ h (by_answer sent done)
  where
    by_answer :
        (x : Answer Sent)
        → x ≢ cancelled
        → IsTidy
            (after_code l.next_client username
              (normalize_phone_number phone)
              proxy
              name
              state
              (open_client l)
              x).1
    by_answer (answered s) d =
        if-keeps Tidy (str_eq s.status "SendPassKey") _ _ (stopped-IsTidy l h) (
          if-keeps Tidy (is_empty s.phone_code_hash) _ _ (stopped-IsTidy l h)
            (opened-IsTidy l _ h new refl))
    by_answer (refused e) d = stopped-IsTidy l h
    by_answer crashed d = stopped-IsTidy l h
    by_answer cancelled d = absurd (d refl)

login_client-IsTidy :
    (r : Remote) (q : Request) (l : Logins)
    → r.started ≢ cancelled
    → IsTidy l
    → IsTidy (login_client r q l).1
unfolding login_client
login_client-IsTidy r q l done h = go (find_pending q.session_name l) refl
  where
    started :
        (x : Answer (Unit {0}))
        → x ≢ cancelled
        → find_pending q.session_name l ≡ none
        → IsTidy (resume q l x).1
    started (answered u) d e = opened-IsTidy l (resumed q l.next_client) h e refl
    started (refused x) d e = stopped-IsTidy l h
    started crashed d e = stopped-IsTidy l h
    started cancelled d e = absurd (d refl)

    go :
        (o : Option Pending)
        → find_pending q.session_name l ≡ o
        → IsTidy (client_or_resume r q l o).1
    go (some p) e = h
    go none e = if-keeps Tidy _ _ _ h (started r.started done e)

after_save-IsTidy :
    (in_time : Bool) (l : Logins) (x : Option Account × Db)
    → IsTidy l
    → IsTidy (after_save in_time l x).1
after_save-IsTidy false l (o, db) h = record {
  same = h.same;
  distinct = h.distinct;
  below = h.below;
}
after_save-IsTidy true l (none, db) h = record {
  same = h.same;
  distinct = h.distinct;
  below = h.below;
}
after_save-IsTidy true l (some a, db) h = record {
  same = h.same;
  distinct = h.distinct;
  below = h.below;
}

finish-IsTidy :
    (now : ℕ) (r : Remote) (username phone name : String) (l : Logins)
    → IsTidy l
    → IsTidy (finish_login now r username phone name l).1
unfolding finish_login
finish-IsTidy now r username phone name l h = go r.me
  where
    stored :
        (guid display : String) → IsTidy (store_login now r username phone name guid display l).1
    stored guid display =
        after_save-IsTidy r.in_time (forget name l) (save_account now _ (forget name l).db)
          (forget-IsTidy name l h)

    go :
        (x : Answer (Option (String × String × String)))
        → IsTidy (with_me now r username phone name l x).1
    go (answered (some (guid, first, last))) = stored _ _
    go (answered none) = stored _ _
    go (refused e) = stored _ _
    go crashed = h
    go cancelled = h

verify-IsTidy :
    (now : ℕ) (r : Remote) (q : Request) (code : String) (l : Logins)
    → r.started ≢ cancelled
    → IsTidy l
    → IsTidy (verify_phone_code now r q code l).1
unfolding verify_phone_code
verify-IsTidy now r q code l done h =
    if-keeps Tidy _ _ _ h (go _ (login_client r q l) (login_client-IsTidy r q l done h))
  where
    signed :
        (p : Pending) (k : Logins) (x : Answer (Unit {0}))
        → IsTidy k
        → IsTidy (after_sign_in now r q p k x).1
    signed p k (refused e) t =
        if-keeps IsTidy (keeps_login e) k (forget q.session_name k) t
          (forget-IsTidy q.session_name k t)
    signed p k crashed t = forget-IsTidy q.session_name k t
    signed p k cancelled t = t
    signed p k (answered u) t =
        if-keeps Tidy r.has_auth _ _ (finish-IsTidy now r _ _ q.session_name k t) t

    go :
        (text : String) (x : Result LoginFailure Pending × Logins)
        → IsTidy x.1
        → IsTidy (signing_in now r q text x).1
    go text (err e, k) t = t
    go text (ok p, k) t = signed p k (r.sign_in _ q.transaction_hash text) t

signup-IsTidy :
    (now : ℕ) (r : Remote) (q : Request) (name : String) (l : Logins)
    → r.started ≢ cancelled
    → IsTidy l
    → IsTidy (complete_phone_signup now r q name l).1
unfolding complete_phone_signup
signup-IsTidy now r q name l done h =
    if-keeps Tidy _ _ _ h (go _ (login_client r q l) (login_client-IsTidy r q l done h))
  where
    signed :
        (p : Pending) (k : Logins) (x : Answer (Unit {0}))
        → IsTidy k
        → IsTidy (after_sign_up now r q p k x).1
    signed p k (refused e) t = forget-IsTidy q.session_name k t
    signed p k crashed t = forget-IsTidy q.session_name k t
    signed p k cancelled t = t
    signed p k (answered u) t =
        if-keeps Tidy r.has_auth _ _ (finish-IsTidy now r _ _ q.session_name k t)
          (forget-IsTidy q.session_name k t)

    go :
        (text : String) (x : Result LoginFailure Pending × Logins)
        → IsTidy x.1
        → IsTidy (signing_up now r q text x).1
    go text (err e, k) t = t
    go text (ok p, k) t = signed p k (r.sign_up text) t

-- A call of the panel that is not cancelled while its client starts or has the code sent. A new
-- login comes under a session name that no pending one has.
pub data Call (l : Logins) : Logins → Type 0 where
  start :
      (username phone proxy name state : String) (sent : Answer Sent)
      → find_pending name l ≡ none
      → sent ≢ cancelled
      → Call l (start_phone_login username phone proxy name state sent l).1
  verify :
      (now : ℕ) (r : Remote) (q : Request) (code : String)
      → r.started ≢ cancelled
      → Call l (verify_phone_code now r q code l).1
  signup :
      (now : ℕ) (r : Remote) (q : Request) (name : String)
      → r.started ≢ cancelled
      → Call l (complete_phone_signup now r q name l).1
  cancel : (name : String) → Call l (cancel_pending_login name l)

pub data Calls (l : Logins) : Logins → Type 0 where
  at_start : Calls l l
  after : {k m : Logins} → Calls l k → Call k m → Calls l m

Call-IsTidy : {l m : Logins} → Call l m → IsTidy l → IsTidy m
unfolding cancel_pending_login
Call-IsTidy {l} (start username phone proxy name state sent new done) h =
    start-IsTidy username phone proxy name state sent l h new done
Call-IsTidy {l} (verify now r q code done) h = verify-IsTidy now r q code l done h
Call-IsTidy {l} (signup now r q name done) h = signup-IsTidy now r q name l done h
Call-IsTidy {l} (cancel name) h = if-keeps IsTidy (is_empty name) _ _ h (forget-IsTidy name l h)

Calls-IsTidy : {l m : Logins} → IsTidy l → Calls l m → IsTidy m
Calls-IsTidy h at_start = h
Calls-IsTidy h (after c k) = Call-IsTidy k (Calls-IsTidy h c)

empty-IsTidy : (l : Logins) → l.pending ≡ [] → l.running ≡ [] → IsTidy l
empty-IsTidy l empty idle = record {
  same = idle ∙ ap (map client_of) (sym empty);
  distinct = rw empty tt;
  below = rw empty tt;
}

-- After calls none of which is cancelled while its client starts, has the code sent, exports its
-- session or is stopped, from a process without logins on, the clients that run are those of the pending
-- logins, in their order: no client is left running that no call can reach. Pending logins differ
-- in their session names and in their clients.
pub Calls-clients :
    {l m : Logins}
    → l.pending ≡ []
    → l.running ≡ []
    → Calls l m
    → (m.running ≡ map (λ p. p.client) m.pending) × Distinct m.pending
Calls-clients {l} empty idle c =
    let t = Calls-IsTidy (empty-IsTidy l empty idle) c in (t.same, t.distinct)
