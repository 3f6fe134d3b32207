-- ===== src/Worker/Accounts/Clients/Apart.antt =====
-- Pending logins whose session names and clients differ.
use mathlib.Core.Path.{subst}
use rubigram.Base.{
  ◌==◌, Bool-cases, filter, find?, All, All-filter_keep, All-append, All-found, ℕ, ◌<◌, String, ◌≡◌,
  refl, sym, ap, ◌∙◌, inl, inr, Bool, true, false, not, none, some, List, [], ◌∷◌, ◌++◌, map, arith,
  str_eq, eq_iff,
}
use rubigram.Worker.Accounts.Login.{Pending, other_than}

abbrev pub client_of : Pending → ℕ
client_of p = p.client

-- No other login of the list has the session name or the client of `p`.
abbrev pub IsAlone : Pending → List Pending → Type 0
IsAlone p ps =
    All (λ q. (str_eq q.session_name p.session_name ≡ false) × ((q.client == p.client) ≡ false)) ps

abbrev pub Distinct : List Pending → Type 0
Distinct [] = Unit
Distinct (p ∷ ps) = IsAlone p ps × Distinct ps

abbrev pub Below : ℕ → List Pending → Type 0
Below n ps = All (λ p. p.client < n) ps

pub Distinct-filter :
    (p : Pending → Bool) (xs : List Pending) → Distinct xs → Distinct (filter p xs)
Distinct-filter p [] h = tt
Distinct-filter p (x ∷ xs) h = elim (Bool-cases (p x)) [
  | inl e ↦ rw e (
    All-filter_keep
        (λ q. (str_eq q.session_name x.session_name ≡ false) × ((q.client == x.client) ≡ false)) p
        xs h.0,
    Distinct-filter p xs h.1,
  )
  | inr e ↦ rw e (Distinct-filter p xs h.1)
]

-- Where no login has the name or the client, dropping them drops nothing.
pub alone-dropped :
    (p : Pending) (name : String) (ps : List Pending)
    → p.session_name ≡ name
    → IsAlone p ps
    → (filter (λ d. not (d == p.client)) (map client_of ps) ≡ map client_of ps)
      × (filter (other_than name) ps ≡ ps)
alone-dropped p name [] e h = (refl, refl)
alone-dropped p name (q ∷ qs) e h =
    let ih = alone-dropped p name qs e h.1 in
    let here : str_eq q.session_name name ≡ false = rw (← e) h.0.0 in
    (rw h.0.1 (ap (λ xs. q.client ∷ xs) ih.0), rw here (ap (λ xs. q ∷ xs) ih.1))

-- To stop the client of a login is to drop the login.
pub drop-same :
    (name : String) (ps : List Pending) (p : Pending)
    → Distinct ps
    → find? (λ q. str_eq q.session_name name) ps ≡ some p
    → filter (λ d. not (d == p.client)) (map client_of ps)
      ≡ map client_of (filter (other_than name) ps)
drop-same name [] p d h = absurd (cc)
drop-same name (q ∷ qs) p d h = elim (Bool-cases (str_eq q.session_name name)) [
  | inl e ↦
      let same : q ≡ p = ground (arith, h, e) in
      let r = alone-dropped q name qs ((eq_iff q.session_name name).0 e) d.0 in
      let me : (q.client == q.client) ≡ true = ground (arith) in
      subst
        (λ (x : Pending).
          filter (λ d. not (d == x.client)) (map client_of (q ∷ qs))
          ≡ map client_of (filter (other_than name) (q ∷ qs)))
        same (rw (e, me) (r.0 ∙ ap (map client_of) (sym r.1)))
  | inr e ↦
      let rest : find? (λ x. str_eq x.session_name name) qs ≡ some p = rw e at h in
      let other =
        All-found
          (λ x. (str_eq x.session_name q.session_name ≡ false) × ((x.client == q.client) ≡ false))
          (λ x. str_eq x.session_name name) qs p d.0 rest in
      let apart : (q.client == p.client) ≡ false = ground (arith, other.1) in
      rw (e, apart) (ap (λ xs. q.client ∷ xs) (drop-same name qs p d.1 rest))
]

-- A new client is stopped.
pub stop-fresh :
    (n : ℕ) (ps : List Pending)
    → Below n ps
    → filter (λ d. not (d == n)) (map client_of ps ++ n ∷ []) ≡ map client_of ps
stop-fresh n [] h = ground arith
stop-fresh n (p ∷ ps) h =
    let here : (p.client == n) ≡ false = ground (arith, h.0) in
    rw here (ap (λ xs. p.client ∷ xs) (stop-fresh n ps h.1))

pub none-dropped :
    (name : String) (ps : List Pending)
    → find? (λ q. str_eq q.session_name name) ps ≡ none
    → filter (other_than name) ps ≡ ps
none-dropped name [] h = refl
none-dropped name (q ∷ qs) h = elim (Bool-cases (str_eq q.session_name name)) [
  | inl e ↦ absurd (ground (arith, h, e))
  | inr e ↦ rw e (ap (λ xs. q ∷ xs) (none-dropped name qs (rw e at h)))
]

pub Distinct-append :
    (ps : List Pending) (p : Pending)
    → Distinct ps
    → find? (λ q. str_eq q.session_name p.session_name) ps ≡ none
    → Below p.client ps
    → Distinct (ps ++ p ∷ [])
Distinct-append [] p d h b = (tt, tt)
Distinct-append (q ∷ qs) p d h b = elim (Bool-cases (str_eq q.session_name p.session_name)) [
  | inl e ↦ absurd (ground (arith, h, e))
  | inr e ↦
      let rest : find? (λ x. str_eq x.session_name p.session_name) qs ≡ none = rw e at h in
      (
        All-append _ qs (p ∷ []) d.0 ((swapped e, ground (arith, b.0)), tt),
        Distinct-append qs p d.1 rest b.1,
      )
]
  where
    swapped :
        str_eq q.session_name p.session_name ≡ false → str_eq p.session_name q.session_name ≡ false
    swapped e = elim (Bool-cases (str_eq p.session_name q.session_name)) [
      | inr f ↦ f
      | inl f ↦ absurd (
          ground (
            arith,
            e,
            (eq_iff q.session_name p.session_name).1
                (sym ((eq_iff p.session_name q.session_name).0 f)),
          ))
    ]
