-- ===== src/Network/Transfers/Download/Stream.antt =====
-- download.py: download_url, a public URL as a stream.
use rubigram.Base.{leb, if◌then◌else◌, is_empty, ℕ, String, Bool, ◌||◌, Option, none, List, [], ◌∷◌}
use rubigram.Base.Errors.{Result, ok, err}
use rubigram.Network.Transfers.{Bytes, Finish, finished, was_interrupted, raised_error}
use rubigram.Network.Transfers.Download.{
  DownloadError, no_destination, no_url, request_timeout, network_error, bad_status, read_length,
  Downloading, begun, received,
}

-- How a stream ends.
pub data StreamEnd : Type 0 where
  complete stream_timed_out stream_interrupted : StreamEnd
  stream_error : String → StreamEnd

-- A response that is read as a stream: its chunks, and how they end.
pub record Stream : Type 0 where
  pub status_code : ℕ
  pub content_length : String
  pub chunks : List Bytes
  pub ends : StreamEnd

unfoldable pub stream_finish : String → StreamEnd → Finish DownloadError
stream_finish url complete = finished
stream_finish url stream_timed_out = raised_error (request_timeout url)
stream_finish url stream_interrupted = was_interrupted
stream_finish url (stream_error message) = raised_error (network_error url message)

-- `async for chunk in response.aiter_bytes`
unfoldable pub read_chunks : Option ℕ → List Bytes → Downloading → Downloading
read_chunks total [] d = d
read_chunks total ([] ∷ chunks) d = read_chunks total chunks d
read_chunks total ((byte ∷ bytes) ∷ chunks) d =
    read_chunks total chunks (received (byte ∷ bytes) total d)

abbrev read_stream :
    String → Stream → Result DownloadError (Option ℕ) → Finish DownloadError × Downloading
read_stream url s (err e) = (raised_error e, begun none)
read_stream url s (ok total) =
    (stream_finish url s.ends, read_chunks total s.chunks (record (begun none) { total = total }))

-- What opening the stream comes to: the response, or how it failed.
pub data Opened : Type 0 where
  opened : Stream → Opened
  not_opened : StreamEnd → Opened

abbrev from_opened : String → Opened → Finish DownloadError × Downloading
from_opened url (not_opened e) = (stream_finish url e, begun none)
from_opened url (opened s) =
    if leb 400 s.status_code
    then (raised_error (bad_status s.status_code ""), begun none)
    else read_stream url s (read_length s.content_length)

-- `download_url`
unfoldable pub download_url : String → Bool → Bool → Opened → Finish DownloadError × Downloading
download_url url in_memory has_destination answer =
    if is_empty url
    then (raised_error no_url, begun none)
    else if in_memory || has_destination
    then from_opened url answer
    else (raised_error no_destination, begun none)
