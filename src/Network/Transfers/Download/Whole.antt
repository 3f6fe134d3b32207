-- ===== src/Network/Transfers/Download/Whole.antt =====
-- Downloads: how one from a server that answers ranges of one file ends.
use rubigram.Base.{
  Bool-cases, length, take_all, ℕ, zero, suc, ◌+◌, ◌≤◌, ◌<◌, String, ◌≡◌, refl, ◌∙◌, ◌⊎◌, inl, inr,
  true, false, Option, none, some, arith,
}
use rubigram.Base.Errors.{Result, ok, err}
use rubigram.Network.Retry.Given.{run_with_retries-Gives}
use rubigram.Network.Retry.Ladder.{run_with_retries-InLadder}
use rubigram.Network.Transfers.{Bytes, is_retry, FileTransport}
use rubigram.Network.Transfers.Download.{
  DownloadError, ChunkReply, ChunkHeaders, Downloading, begun, last_of, is_past, fetch_once,
  fetch_chunk, turn, fetch_all, FileRequest, checked, download_file, headers_for, download_from,
}
use rubigram.Network.Transfers.Download.Ranges.{Honest, IsDownload, IsPart, judge_chunk-Returns}
use rubigram.Network.Transfers.Download.Chunks.{Going, IsSize, known_size-IsKnown, after-IsDownload}

module _ {W : Type 0} (file : Bytes) (post : String → ChunkHeaders → ℕ → W → ChunkReply × W)
    (t : FileTransport)
    (honest : (url : String) (h : ChunkHeaders) (timeout : ℕ) (w : W)
      → Honest file h (post url h timeout w).0)
    (room : 1 ≤ t.chunk_size) where
  forward :
      (d : Downloading)
      → Going file d
      → is_past d.total d.start ≡ false
      → d.start ≤ last_of t.chunk_size d.total d.start
  unfolding last_of is_past
  forward d going h = go d.total going.total h
    where
      go :
          (o : Option ℕ)
          → (o ≡ none) ⊎ ((o ≡ some (length file)) × (1 ≤ length file))
          → is_past o d.start ≡ false
          → d.start ≤ last_of t.chunk_size o d.start
      go none e past = omega (arith, room)
      go (some n) e past = ground (arith, room, past)

  past-whole : (d : Downloading) → Going file d → is_past d.total d.start ≡ true → d.written ≡ file
  unfolding is_past
  past-whole d going h = going.written ∙ take_all d.start file (go d.total going.total h)
    where
      go :
          (o : Option ℕ)
          → (o ≡ none) ⊎ ((o ≡ some (length file)) × (1 ≤ length file))
          → is_past o d.start ≡ true
          → length file ≤ d.start
      go o (inl e) past = absurd (ground (arith, rw e at past))
      go o (inr e) past = ground (arith, e.1, rw e.0 at past)

  module _ (url auth file_id access_hash_rec : String) where
    fetch_all-IsDownload :
        (turns : ℕ) (d : Downloading) (w : W)
        → length file < turns + d.start
        → Going file d
        → IsDownload file (fetch_all post t url auth file_id access_hash_rec turns d w)
    unfolding fetch_all turn fetch_chunk fetch_once IsDownload
    fetch_all-IsDownload zero d w left going = absurd (omega (arith, left, going.within))
    fetch_all-IsDownload (suc turns) d w left going = elim (Bool-cases (is_past d.total d.start)) [
      | inl past ↦ rw (past, fetch_all, turn) (past-whole d going past)
      | inr past ↦
          let end = last_of t.chunk_size d.total d.start in
          let h = headers_for post t url auth file_id access_hash_rec d.start end in
          let attempt = fetch_once post t url auth file_id access_hash_rec h in
          rw (past, fetch_all, turn)
            (after-IsDownload file (fetch_all post t url auth file_id access_hash_rec turns) end d
              going (forward d going past)
              (λ d' w' g more. fetch_all-IsDownload turns d' w' (omega (arith, left, more)) g)
              (fetch_chunk post t url auth file_id access_hash_rec h w)
              (run_with_retries-InLadder t.retry_policy is_retry attempt (λ i e v. v) w).0
              (run_with_retries-Gives t.retry_policy is_retry attempt (λ i e v. v)
                (IsPart file d.start end)
                (λ i v.
                  judge_chunk-Returns file url h (post url h t.retry_policy.timeout v).0
                    (honest url h t.retry_policy.timeout v))
                w))
    ]

  -- A server that answers each range with the bytes of one file, and with no size but the file's;
  -- parts may fail and be retried. Then the download ends within one turn more than the file has
  -- bytes. It has written the whole file if it finished, and a start of the file if it raised an
  -- error or was cancelled; the ladder always comes to an answer.
  pub download_file-IsDownload :
      (turns : ℕ) (q : FileRequest) (w : W)
      → IsSize file q.file_size
      → length file < turns
      → IsDownload file (download_file post t turns q w)
  unfolding download_file begun IsDownload
  download_file-IsDownload turns q w size enough = go (checked q)
    where
      go : (x : Result DownloadError String) → IsDownload file (download_from post t turns q w x)
      go (err e) = (0, refl)
      go (ok url) =
          fetch_all-IsDownload url q.auth q.file_id q.access_hash_rec turns (begun q.file_size) w
            (omega (arith, enough))
            (record {
              written = refl;
              within = omega arith;
              downloaded = refl;
              total = known_size-IsKnown file q.file_size size;
            })
