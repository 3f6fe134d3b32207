-- ===== src/Network/Transfers/Download.antt =====
-- rubigram/network/download.py: a file by ranges of its bytes, and a public URL as a stream.
use rubigram.Base.{
  ltb, leb, if◌then◌else◌, length, is_empty, or_text, concat, cut, ℕ, zero, suc, ◌+◌, ◌-◌, min,
  String, Bool, false, not, ◌&&◌, ◌||◌, Option, none, some, List, [], ◌∷◌, ◌++◌,
}
use rubigram.Base.Errors.{Result, ok, err, ◌>>=◌}
use rubigram.Base.Int.{ℤ, pos, negsuc}
use rubigram.Base.Digits.{is_digit}
use rubigram.Base.Numbers.{int_of}
use rubigram.Base.Texts.{all_chars}
use rubigram.Network.Retry.{
  Attempt, returned, cancelled, failed, Ending, gave, was_cancelled, raised, fell_through,
  run_with_retries,
}
use rubigram.Network.Transfers.{
  Bytes, Failure, retry_with, plainly, is_retry, Finish, finished, was_interrupted, no_answer,
  out_of_turns, raised_error, part_error, FileTransport,
}
pub mod Ranges
pub mod Chunks
pub mod Whole
pub mod Stream
pub mod Finished

-- `LoginRequired`, `TransportError` by its texts, `RequestTimeout`, `NetworkError`, and the
-- `ValueError` of `int`
pub data DownloadError : Type 0 where
  login_required no_file_id no_access_hash no_storage_url no_destination no_url : DownloadError
  request_timeout : String → DownloadError
  network_error : String → String → DownloadError
  bad_status : ℕ → String → DownloadError
  bad_length : String → DownloadError

unfoldable pub fallback_storage_url : String → String
fallback_storage_url dc_id = concat "https://messanger" (concat dc_id ".iranlms.ir/GetFile.ashx")

-- A response to a part: its headers `total_length` and `total-length`, absent ones as empty.
pub record ChunkResponse : Type 0 where
  pub status_code : ℕ
  pub text : String
  pub content : Bytes
  pub total_length : String
  pub total_dash_length : String

-- How `client.post` ends.
pub data ChunkReply : Type 0 where
  timed_out interrupted : ChunkReply
  http_error : String → ChunkReply
  answered : ChunkResponse → ChunkReply

-- The headers of a part, before `str`.
pub record ChunkHeaders : Type 0 where
  pub auth : String
  pub file_id : String
  pub access_hash_rec : String
  pub start_index : ℕ
  pub last_index : ℕ

abbrev natural : String → Option ℤ → Result DownloadError (Option ℕ)
natural header none = err (bad_length header)
natural header (some (negsuc n)) = err (bad_length header)
natural header (some (pos n)) = ok (some n)

-- `int(h) if h and h.isdigit() else None`
unfoldable pub read_length : String → Result DownloadError (Option ℕ)
read_length header =
    if not (is_empty header) && all_chars is_digit header
    then natural header (int_of header)
    else ok none

abbrev pub length_header : ChunkResponse → String
length_header r = or_text r.total_length r.total_dash_length

abbrev with_length :
    Bytes → Result DownloadError (Option ℕ) → Attempt (Failure DownloadError) (Bytes × Option ℕ)
with_length content (ok length_) = returned (content, length_)
with_length content (err e) = failed (plainly e)

-- `attempt` of `_fetch_chunk`, once `client.post` ended.
unfoldable pub judge_chunk :
    String → ChunkReply → Attempt (Failure DownloadError) (Bytes × Option ℕ)
judge_chunk url timed_out = failed (retry_with (request_timeout url))
judge_chunk url interrupted = cancelled
judge_chunk url (http_error message) = failed (retry_with (network_error url message))
judge_chunk url (answered r) =
    if leb 500 r.status_code
    then failed (retry_with (bad_status r.status_code ""))
    else if leb 400 r.status_code
    then failed (plainly (bad_status r.status_code (cut 200 r.text)))
    else with_length r.content (read_length (length_header r))

-- The variables of `download_file`; `written` is what the file or the list of chunks holds, and
-- `reports` the calls of `progress`.
pub record Downloading : Type 0 where
  pub start : ℕ
  pub downloaded : ℕ
  pub total : Option ℕ
  pub written : Bytes
  pub reports : List (ℕ × ℕ)

-- `int(file_size) if file_size else None`; a size is a natural number.
abbrev known_size : Option ℕ → Option ℕ
known_size none = none
known_size (some zero) = none
known_size (some (suc n)) = some (suc n)

unfoldable pub begun : Option ℕ → Downloading
begun file_size = record {
  start = 0;
  downloaded = 0;
  total = known_size file_size;
  written = [];
  reports = [];
}

unfoldable pub last_of : ℕ → Option ℕ → ℕ → ℕ
last_of size none start = start + size - 1
last_of size (some total) start = min (start + size - 1) (total - 1)

unfoldable pub is_past : Option ℕ → ℕ → Bool
is_past none start = false
is_past (some total) start = ltb (total - 1) start

-- `if total is None and total_length: total = total_length`
unfoldable pub learned : Option ℕ → Option ℕ → Option ℕ
learned (some total) length_ = some total
learned none length_ = known_size length_

abbrev or_number : Option ℕ → ℕ → ℕ
or_number none n = n
or_number (some zero) n = n
or_number (some (suc m)) n = suc m

unfoldable pub received : Bytes → Option ℕ → Downloading → Downloading
received chunk total d =
    let downloaded = d.downloaded + length chunk in
    record {
      start = d.start;
      downloaded = downloaded;
      total = total;
      written = d.written ++ chunk;
      reports = d.reports ++ (downloaded, or_number total downloaded) ∷ [];
    }

abbrev is_reached : Option ℕ → ℕ → Bool
is_reached none downloaded = false
is_reached (some total) downloaded = leb total downloaded

-- What a call comes to: how it ends, its variables, and the world.
abbrev pub Download : Type 0 → Type 0
Download W = Finish DownloadError × Downloading × W

-- The end of a turn; `rest` is the loop from the next turn on.
unfoldable pub after_chunk :
    {W : Type 0}
    → (Downloading → W → Download W)
    → ℕ
    → Downloading
    → Ending (Failure DownloadError) (Bytes × Option ℕ) × W
    → Download W
after_chunk rest end d (gave ([], length_), w) =
    (finished, record d { total = learned d.total length_ }, w)
after_chunk rest end d (gave (byte ∷ bytes, length_), w) =
    let next = received (byte ∷ bytes) (learned d.total length_) d in
    if is_reached next.total next.downloaded
    then (finished, next, w)
    else if ltb (length (byte ∷ bytes)) (end + 1 - d.start)
    then (finished, next, w)
    else rest (record next { start = end + 1 }) w
after_chunk rest end d (was_cancelled, w) = (was_interrupted, d, w)
after_chunk rest end d (raised e, w) = (part_error e, d, w)
after_chunk rest end d (fell_through, w) = (no_answer, d, w)

-- `post` is `client.post` with url, headers and timeout; `W` is the world outside.
module _ {W : Type 0} (post : String → ChunkHeaders → ℕ → W → ChunkReply × W) (t : FileTransport)
    (url auth file_id access_hash_rec : String) where
  unfoldable pub fetch_once :
      ChunkHeaders → ℕ → W → Attempt (Failure DownloadError) (Bytes × Option ℕ) × W
  fetch_once headers index w =
      let x = post url headers t.retry_policy.timeout w in (judge_chunk url x.0, x.1)

  -- `_fetch_chunk`
  unfoldable pub fetch_chunk :
      ChunkHeaders → W → Ending (Failure DownloadError) (Bytes × Option ℕ) × W
  fetch_chunk headers w =
      let r = run_with_retries t.retry_policy is_retry (fetch_once headers) (λ i e v. v) w in
      (r.ending, r.state)

  abbrev headers_for : ℕ → ℕ → ChunkHeaders
  headers_for start end = record {
    auth = auth;
    file_id = file_id;
    access_hash_rec = access_hash_rec;
    start_index = start;
    last_index = end;
  }

  -- A turn of `while True`.
  unfoldable pub turn : (Downloading → W → Download W) → Downloading → W → Download W
  turn rest d w =
      let end = last_of t.chunk_size d.total d.start in
      if is_past d.total d.start
      then (finished, d, w)
      else after_chunk rest end d (fetch_chunk (headers_for d.start end) w)

  -- The loop, for a number of turns.
  unfoldable pub fetch_all : ℕ → Downloading → W → Download W
  fetch_all zero d w = (out_of_turns, d, w)
  fetch_all (suc turns) d w = turn (fetch_all turns) d w

abbrev storage_url : String → Option String → Result DownloadError String
storage_url url dc_id =
    if is_empty url
    then (elim dc_id [
      | none ↦ err no_storage_url
      | some dc ↦ if is_empty dc then err no_storage_url else ok (fallback_storage_url dc)
    ])
    else ok url

-- What is asked for; `has_destination` tells whether there is a path.
pub record FileRequest : Type 0 where
  pub auth : String
  pub file_id : String
  pub access_hash_rec : String
  pub url : String
  pub dc_id : Option String
  pub file_size : Option ℕ
  pub has_destination : Bool
  pub in_memory : Bool

-- The checks of `download_file`, and the URL that it goes on with.
unfoldable pub checked : FileRequest → Result DownloadError String
checked q =
    if is_empty q.auth
    then err login_required
    else if is_empty q.file_id
    then err no_file_id
    else if is_empty q.access_hash_rec
    then err no_access_hash
    else storage_url q.url q.dc_id >>= λ url.
        if q.in_memory || q.has_destination then ok url else err no_destination

abbrev download_from :
    {W : Type 0}
    → (String → ChunkHeaders → ℕ → W → ChunkReply × W)
    → FileTransport
    → ℕ
    → FileRequest
    → W
    → Result DownloadError String
    → Download W
download_from post t turns q w (err e) = (raised_error e, begun q.file_size, w)
download_from post t turns q w (ok url) =
    fetch_all post t url q.auth q.file_id q.access_hash_rec turns (begun q.file_size) w

-- `download_file`
unfoldable pub download_file :
    {W : Type 0}
    → (String → ChunkHeaders → ℕ → W → ChunkReply × W)
    → FileTransport
    → ℕ
    → FileRequest
    → W
    → Download W
download_file post t turns q w = download_from post t turns q w (checked q)
