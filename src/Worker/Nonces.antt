-- ===== src/Worker/Nonces.antt =====
-- `remember_nonce` of jobs.py: the table of nonces that refuses a replayed request.
use rubigram.Base.{if◌then◌else◌, any, String, Bool, true, false, [], ◌∷◌, ◌++◌, str_eq}
use rubigram.Worker.Db.{Db}

-- `True` when the nonce is new; the table has a unique constraint
unfoldable pub remember_nonce : String → Db → Bool × Db
remember_nonce nonce db =
    if any (λ n. str_eq n nonce) db.nonces
    then (false, db)
    else (true, record db { nonces = db.nonces ++ nonce ∷ [] })
