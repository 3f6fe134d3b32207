-- ===== src/Network/Transfers/Upload.antt =====
-- rubigram/network/upload.py: a file in parts of one size, each of which is sent until it is taken.
use rubigram.Base.{
  leb, if◌then◌else◌, length, take, drop, is_empty, or_text, cut, ℕ, zero, suc, ◌+◌, ◌-◌, ◌/◌, max,
  String, not, ◌&&◌, Option, none, some, List, [], ◌∷◌, ◌++◌, str_eq,
}
use rubigram.Network.Retry.{
  Attempt, returned, cancelled, failed, Ending, gave, was_cancelled, raised, fell_through,
  run_with_retries,
}
use rubigram.Network.Transfers.{
  Bytes, Failure, retry_with, plainly, is_retry, Finish, finished, was_interrupted, no_answer,
  raised_error, part_error, FileTransport,
}
pub mod Parts

-- `TransportError` by its texts, `RequestTimeout`, `NetworkError`, and what `map_rpc_error` makes
-- of a status and its details.
pub data UploadError : Type 0 where
  no_auth no_upload_url no_upload_id no_access_hash_send no_source : UploadError
  part_timed_out : String → UploadError
  part_not_sent : String → String → UploadError
  part_refused : ℕ → String → UploadError
  part_unreadable part_unexpected : UploadError
  part_rejected : String → UploadError
  rpc_error : String → String → UploadError

-- A part of a file, as its headers and its body say.
pub record Part : Type 0 where
  pub part_number : ℕ
  pub total_part : ℕ
  pub size : ℕ
  pub content : Bytes

-- The answer to a part, absent texts as empty ones; `access_hash_rec` is that of its `data`.
pub record PartPayload : Type 0 where
  pub status : String
  pub status_det : String
  pub access_hash_rec : String

-- `response.json()`: a `ValueError`, a dictionary, or another value.
pub data PartBody : Type 0 where
  bad_json other_json : PartBody
  payload : PartPayload → PartBody

-- How `client.post` ends.
pub data PartReply : Type 0 where
  late cut_off : PartReply
  broken : String → PartReply
  replied : ℕ → String → PartBody → PartReply

abbrev judge_payload : PartPayload → Attempt (Failure UploadError) PartPayload
judge_payload p =
    if not (is_empty p.status) && not (str_eq p.status "OK")
    then failed (plainly (rpc_error p.status p.status_det))
    else if not (is_empty p.status_det) && not (str_eq p.status_det "OK")
    then failed (retry_with (part_rejected p.status_det))
    else returned p

abbrev judge_part_body : PartBody → Attempt (Failure UploadError) PartPayload
judge_part_body bad_json = failed (retry_with part_unreadable)
judge_part_body other_json = failed (plainly part_unexpected)
judge_part_body (payload p) = judge_payload p

-- `attempt` of `_send_part`, once `client.post` ended.
unfoldable pub judge_part : String → PartReply → Attempt (Failure UploadError) PartPayload
judge_part url late = failed (retry_with (part_timed_out url))
judge_part url cut_off = cancelled
judge_part url (broken message) = failed (retry_with (part_not_sent url message))
judge_part url (replied status text body) =
    if leb 500 status
    then failed (retry_with (part_refused status (cut 200 text)))
    else if leb 400 status
    then failed (plainly (part_refused status (cut 200 text)))
    else judge_part_body body

-- `max(1, math.ceil(total_size / chunk_size))`
unfoldable pub part_count : ℕ → ℕ → ℕ
part_count size chunk_size = max 1 ((size + (chunk_size - 1)) / chunk_size)

-- `UploadDescriptor`, absent texts as empty ones.
pub record UploadDescriptor : Type 0 where
  pub id : Option String
  pub dc_id : String
  pub access_hash_send : String
  pub access_hash_rec : String
  pub upload_url : String

-- The variables of the loop: what is left of the stream, and the parts that were taken.
pub record Uploading : Type 0 where
  pub left : Bytes
  pub index : ℕ
  pub access_hash_rec : String
  pub uploaded : ℕ
  pub taken : List Part
  pub reports : List (ℕ × ℕ)

abbrev pub Upload : Type 0 → Type 0
Upload W = Finish UploadError × Uploading × W

-- `stream.read(chunk_size)`, with the headers of the part
unfoldable pub next_part : ℕ → ℕ → Uploading → Part
next_part chunk_size total u =
    let chunk = take chunk_size u.left in
    record { part_number = u.index + 1; total_part = total; size = length chunk; content = chunk }

unfoldable pub part_taken : ℕ → ℕ → Part → PartPayload → Uploading → Uploading
part_taken chunk_size file_size part p u = record {
  left = drop chunk_size u.left;
  index = u.index + 1;
  access_hash_rec = or_text p.access_hash_rec u.access_hash_rec;
  uploaded = u.uploaded + part.size;
  taken = u.taken ++ part ∷ [];
  reports = u.reports ++ (u.uploaded + part.size, file_size) ∷ [];
}

unfoldable pub after_part :
    {W : Type 0}
    → ℕ
    → ℕ
    → (Uploading → W → Upload W)
    → Part
    → Uploading
    → Ending (Failure UploadError) PartPayload × W
    → Upload W
after_part chunk_size file_size rest part u (gave p, w) =
    rest (part_taken chunk_size file_size part p u) w
after_part chunk_size file_size rest part u (was_cancelled, w) = (was_interrupted, u, w)
after_part chunk_size file_size rest part u (raised e, w) = (part_error e, u, w)
after_part chunk_size file_size rest part u (fell_through, w) = (no_answer, u, w)

-- `post` is `client.post` with url, part and timeout; `W` is the world outside.
module _ {W : Type 0} (post : String → Part → ℕ → W → PartReply × W) (t : FileTransport) where
  unfoldable pub send_once : String → Part → ℕ → W → Attempt (Failure UploadError) PartPayload × W
  send_once url part index w =
      let x = post url part t.retry_policy.timeout w in (judge_part url x.0, x.1)

  -- `_send_part`
  unfoldable pub send_part : String → Part → W → Ending (Failure UploadError) PartPayload × W
  send_part url part w =
      let r = run_with_retries t.retry_policy is_retry (send_once url part) (λ i e v. v) w in
      (r.ending, r.state)

  -- `for index in range(total_parts)`: the first argument is how many turns are left.
  unfoldable pub send_parts : ℕ → String → ℕ → ℕ → Uploading → W → Upload W
  send_parts zero url file_size total u w = (finished, u, w)
  send_parts (suc turns) url file_size total u w =
      let part = next_part t.chunk_size total u in
      after_part t.chunk_size file_size (send_parts turns url file_size total) part u
        (send_part url part w)

  abbrev upload_started : UploadDescriptor → Bytes → Uploading
  upload_started d file = record {
    left = file;
    index = 0;
    access_hash_rec = d.access_hash_rec;
    uploaded = 0;
    taken = [];
    reports = [];
  }

  abbrev upload_to : UploadDescriptor → Option Bytes → W → Upload W
  upload_to d none w = (raised_error no_source, upload_started d [], w)
  upload_to d (some file) w =
      let total = part_count (length file) t.chunk_size in
      send_parts total d.upload_url (length file) total (upload_started d file) w

  abbrev upload_checked : UploadDescriptor → Option Bytes → W → Upload W
  upload_checked d file w =
      if is_empty d.access_hash_send
      then (raised_error no_access_hash_send, upload_started d [], w)
      else upload_to d file w

  -- `upload_file` of the bytes that `path` or `data` gives; `finished` comes with the descriptor
  -- whose `access_hash_rec` is that of the variables.
  unfoldable pub upload_file : String → UploadDescriptor → Option Bytes → W → Upload W
  upload_file auth d file w =
      if is_empty auth
      then (raised_error no_auth, upload_started d [], w)
      else if is_empty d.upload_url
      then (raised_error no_upload_url, upload_started d [], w)
      else elim d.id [
        | none ↦ (raised_error no_upload_id, upload_started d [], w)
        | some id ↦ upload_checked d file w
      ]
