-- ===== src/Network/Transfers/Download/Finished.antt =====
-- Downloads: one whose parts all arrive.
use rubigram.Network.Transfers.Download.Chunks.{IsSize}
use rubigram.Base.{
  ltb, leb, Bool-cases, length, ℕ, zero, suc, ◌+◌, ◌-◌, ◌≤◌, ◌<◌, String, ◌≡◌, refl, ◌⊎◌, inl, inr,
  Bool, false, Option, none, some, [], ◌∷◌, arith,
}
use rubigram.Base.Errors.{ok}
use rubigram.Network.Retry.{
  RetryPolicy, attempts, Attempt, returned, cancelled, failed, Ending, gave, was_cancelled, raised,
  fell_through, Run, after_attempt, run_from, run_with_retries,
}
use rubigram.Network.Transfers.{
  Bytes, Failure, is_retry, Finish, finished, was_interrupted, no_answer, out_of_turns,
  raised_error, FileTransport,
}
use rubigram.Network.Transfers.Download.{
  DownloadError, ChunkReply, timed_out, interrupted, http_error, answered, ChunkHeaders,
  read_length, length_header, judge_chunk, Downloading, begun, last_of, is_past, learned, received,
  Download, after_chunk, fetch_once, fetch_chunk, turn, fetch_all, FileRequest, checked,
  download_file, headers_for, is_reached,
}
use rubigram.Network.Transfers.Download.Ranges.{IsRange, Honest, IsDownload}
use rubigram.Network.Transfers.Download.Whole.{download_file-IsDownload}

-- A part that arrives.
abbrev pub Arrives : Bytes → ChunkHeaders → ChunkReply → Type 0
Arrives file h (answered r) = (r.status_code < 400) × IsRange file h r
Arrives file h timed_out = ⊥
Arrives file h interrupted = ⊥
Arrives file h (http_error message) = ⊥

Arrives-Honest :
    (file : Bytes) (h : ChunkHeaders) (x : ChunkReply) → Arrives file h x → Honest file h x
Arrives-Honest file h (answered r) a = λ low. a.1
Arrives-Honest file h timed_out a = tt
Arrives-Honest file h interrupted a = tt
Arrives-Honest file h (http_error m) a = tt

abbrev IsReturned : {E A : Type 0} → Attempt E A → Type 0
IsReturned (returned a) = Unit
IsReturned cancelled = ⊥
IsReturned (failed e) = ⊥

abbrev IsGiven : {E A : Type 0} → Ending E A → Type 0
IsGiven (gave a) = Unit
IsGiven was_cancelled = ⊥
IsGiven (raised e) = ⊥
IsGiven fell_through = ⊥

-- A call that finished, or that would go on with more turns.
abbrev Stops : {E : Type 0} → Finish E → Type 0
Stops finished = Unit
Stops out_of_turns = Unit
Stops was_interrupted = ⊥
Stops no_answer = ⊥
Stops (raised_error e) = ⊥

arrived-IsReturned :
    (file : Bytes) (url : String) (h : ChunkHeaders) (x : ChunkReply)
    → Arrives file h x
    → IsReturned (judge_chunk url x)
unfolding judge_chunk
arrived-IsReturned file url h (answered r) a = go (ground (arith, a.0)) (ground (arith, a.0)) a.1.1
  where
    go :
        leb 500 r.status_code ≡ false
        → leb 400 r.status_code ≡ false
        → (read_length (length_header r) ≡ ok none)
          ⊎ (read_length (length_header r) ≡ ok (some (length file)))
        → IsReturned (judge_chunk url (answered r))
    go t u (inl e) = rw (t, u, judge_chunk, e) tt
    go t u (inr e) = rw (t, u, judge_chunk, e) tt
arrived-IsReturned file url h timed_out a = absurd a
arrived-IsReturned file url h interrupted a = absurd a
arrived-IsReturned file url h (http_error m) a = absurd a

module _ {E A S : Type 0} (p : RetryPolicy) (retryable : E → Bool)
    (attempt : ℕ → S → Attempt E A × S) (on_retry : ℕ → E → S → S) where
  after-IsGiven :
      (rest : E → S → Run E A S) (x : Attempt E A × S)
      → IsReturned x.0
      → IsGiven (after_attempt p retryable attempt on_retry 0 rest x).ending
  unfolding after_attempt
  after-IsGiven rest (returned a, s) h = tt
  after-IsGiven rest (cancelled, s) h = absurd h
  after-IsGiven rest (failed e, s) h = absurd h

  run-IsGiven :
      (s : S)
      → IsReturned (attempt 0 s).0
      → IsGiven (run_with_retries p retryable attempt on_retry s).ending
  unfolding run_with_retries run_from attempts
  run-IsGiven s h = after-IsGiven _ (attempt 0 s) h

after-Stops :
    {W : Type 0} (rest : Downloading → W → Download W) (end : ℕ) (d : Downloading)
    (x : Ending (Failure DownloadError) (Bytes × Option ℕ) × W)
    → ((d' : Downloading) (w : W) → Stops (rest d' w).0)
    → IsGiven x.0
    → Stops (after_chunk rest end d x).0
unfolding after_chunk
after-Stops rest end d (gave ([], l), w) stops h = tt
after-Stops rest end d (gave (b ∷ bs, l), w) stops h =
    let next = received (b ∷ bs) (learned d.total l) d in
    elim (Bool-cases (is_reached next.total next.downloaded)) [
      | inl t ↦ rw (t, after_chunk) tt
      | inr t ↦ elim (Bool-cases (ltb (length (b ∷ bs)) (end + 1 - d.start))) [
        | inl u ↦ rw (t, u, after_chunk) tt
        | inr u ↦ rw (t, u, after_chunk) (stops _ w)
      ]
    ]
after-Stops rest end d (was_cancelled, w) stops h = absurd h
after-Stops rest end d (raised e, w) stops h = absurd h
after-Stops rest end d (fell_through, w) stops h = absurd h

stopped-whole :
    {W : Type 0} (file : Bytes) (x : Download W)
    → Stops x.0
    → IsDownload file x
    → (x.0 ≡ finished) × (x.1.written ≡ file)
unfolding IsDownload
stopped-whole file (finished, d, w) s h = (refl, h)
stopped-whole file (out_of_turns, d, w) s h = absurd h
stopped-whole file (was_interrupted, d, w) s h = absurd s
stopped-whole file (no_answer, d, w) s h = absurd s
stopped-whole file (raised_error e, d, w) s h = absurd s

module _ {W : Type 0} (file : Bytes) (post : String → ChunkHeaders → ℕ → W → ChunkReply × W)
    (t : FileTransport)
    (arrives : (url : String) (h : ChunkHeaders) (timeout : ℕ) (w : W)
      → Arrives file h (post url h timeout w).0)
    (room : 1 ≤ t.chunk_size) where
  fetch_all-Stops :
      (url auth file_id access_hash_rec : String) (turns : ℕ) (d : Downloading) (w : W)
      → Stops (fetch_all post t url auth file_id access_hash_rec turns d w).0
  unfolding fetch_all turn fetch_chunk fetch_once
  fetch_all-Stops url auth file_id access_hash_rec zero d w = tt
  fetch_all-Stops url auth file_id access_hash_rec (suc turns) d w =
      elim (Bool-cases (is_past d.total d.start)) [
        | inl past ↦ rw (past, fetch_all, turn) tt
        | inr past ↦
            let end = last_of t.chunk_size d.total d.start in
            let h = headers_for post t url auth file_id access_hash_rec d.start end in
            rw (past, fetch_all, turn)
              (after-Stops (fetch_all post t url auth file_id access_hash_rec turns) end d
                (fetch_chunk post t url auth file_id access_hash_rec h w)
                (fetch_all-Stops url auth file_id access_hash_rec turns)
                (run-IsGiven t.retry_policy is_retry
                  (fetch_once post t url auth file_id access_hash_rec h) (λ i e v. v) w
                  (arrived-IsReturned file url h (post url h t.retry_policy.timeout w).0
                    (arrives url h t.retry_policy.timeout w))))
      ]

  -- A request that passes the checks, to a server whose answers all arrive with the bytes of one
  -- file and no size but the file's, finishes and has written the file, within one turn more than
  -- the file has bytes.
  pub download_file-finishes :
      (turns : ℕ) (q : FileRequest) (url : String) (w : W)
      → checked q ≡ ok url
      → IsSize file q.file_size
      → length file < turns
      → let r = download_file post t turns q w in (r.0 ≡ finished) × (r.1.written ≡ file)
  unfolding download_file
  download_file-finishes turns q url w good size enough =
      stopped-whole file (download_file post t turns q w)
        (rw (good, download_file)
          (fetch_all-Stops url q.auth q.file_id q.access_hash_rec turns (begun q.file_size) w))
        (download_file-IsDownload file post t
          (λ u h timeout v. Arrives-Honest file h (post u h timeout v).0 (arrives u h timeout v))
          room turns q w size enough)
