-- ===== src/Network/Transfers/Download/Ranges.antt =====
-- Downloads: the ranges of a file, and what a part gives.
use rubigram.Base.{
  leb, Bool-cases, length, take, drop, ℕ, ◌+◌, ◌-◌, ◌<◌, String, ◌≡◌, refl, ◌⊎◌, inl, inr, Option,
  none, some, arith,
}
use rubigram.Base.Errors.{Result, ok}
use rubigram.Network.Retry.Given.{Returns}
use rubigram.Network.Transfers.{
  Bytes, finished, was_interrupted, no_answer, out_of_turns, raised_error,
}
use rubigram.Network.Transfers.Download.{
  DownloadError, ChunkResponse, ChunkReply, timed_out, interrupted, http_error, answered,
  ChunkHeaders, read_length, length_header, judge_chunk, Download, with_length,
}

-- The bytes of a range, its last index included.
abbrev pub range_of : Bytes → ℕ → ℕ → Bytes
range_of file start end = take (end + 1 - start) (drop start file)

-- A response that holds a range of the file and, if anything, the file's length.
abbrev pub IsRange : Bytes → ChunkHeaders → ChunkResponse → Type 0
IsRange file h r =
    (r.content ≡ range_of file h.start_index h.last_index)
    × ((read_length (length_header r) ≡ ok none)
        ⊎ (read_length (length_header r) ≡ ok (some (length file))))

-- A response that is not an error holds its range; anything else may happen to a part.
abbrev pub Honest : Bytes → ChunkHeaders → ChunkReply → Type 0
Honest file h timed_out = Unit
Honest file h interrupted = Unit
Honest file h (http_error message) = Unit
Honest file h (answered r) = r.status_code < 400 → IsRange file h r

-- How a download of the file ends: with the whole of it, or else with a start of it.
unfoldable pub IsDownload : {W : Type 0} → Bytes → Download W → Type 0
IsDownload file (finished, d, w) = d.written ≡ file
IsDownload file (was_interrupted, d, w) = (n : ℕ) × (d.written ≡ take n file)
IsDownload file (raised_error e, d, w) = (n : ℕ) × (d.written ≡ take n file)
IsDownload file (no_answer, d, w) = ⊥
IsDownload file (out_of_turns, d, w) = ⊥

-- What a part gives.
abbrev pub IsPart : Bytes → ℕ → ℕ → Bytes × Option ℕ → Type 0
IsPart file start end x =
    (x.0 ≡ range_of file start end) × ((x.1 ≡ none) ⊎ (x.1 ≡ some (length file)))

pub with_length-Returns :
    (file content : Bytes) (h : ChunkHeaders) (x : Result DownloadError (Option ℕ))
    → content ≡ range_of file h.start_index h.last_index
    → (x ≡ ok none) ⊎ (x ≡ ok (some (length file)))
    → Returns (IsPart file h.start_index h.last_index) (with_length content x)
with_length-Returns file content h x c (inl e) = rw e (c, inl refl)
with_length-Returns file content h x c (inr e) = rw e (c, inr refl)

pub judge_chunk-Returns :
    (file : Bytes) (url : String) (h : ChunkHeaders) (x : ChunkReply)
    → Honest file h x
    → Returns (IsPart file h.start_index h.last_index) (judge_chunk url x)
unfolding judge_chunk
judge_chunk-Returns file url h timed_out e = tt
judge_chunk-Returns file url h interrupted e = tt
judge_chunk-Returns file url h (http_error m) e = tt
judge_chunk-Returns file url h (answered r) e = elim (Bool-cases (leb 500 r.status_code)) [
  | inl t ↦ rw (t, judge_chunk) tt
  | inr t ↦ elim (Bool-cases (leb 400 r.status_code)) [
    | inl u ↦ rw (t, u, judge_chunk) tt
    | inr u ↦
        let good = e (ground (arith, u)) in
        rw (t, u, judge_chunk) (with_length-Returns file r.content h _ good.0 good.1)
  ]
]
