-- ===== src/Network/Transfers/Tests.antt =====
-- Transfers: a file of five bytes, in parts of two.
use rubigram.Network.Transfers.Download.Stream.{download_url, opened, complete}
use rubigram.Base.{
  ℕ, suc, String, ◌≡◌, refl, inl, inr, Bool, true, false, none, some, [], ◌∷◌, arith,
}
use rubigram.Base.Errors.{ok}
use rubigram.Network.Transfers.{Bytes, finished, FileTransport}
use rubigram.Network.Transfers.Download.{
  ChunkReply, timed_out, answered, ChunkHeaders, read_length, FileRequest, checked, download_file,
}
use rubigram.Network.Transfers.Download.Ranges.{range_of, Honest, IsDownload}
use rubigram.Network.Transfers.Download.Whole.{download_file-IsDownload}
use rubigram.Network.Transfers.Download.Finished.{Arrives, download_file-finishes}
use rubigram.Network.Transfers.Upload.{
  Part, payload, PartReply, late, replied, part_count, UploadDescriptor, upload_file,
}
use rubigram.Network.Transfers.Upload.Parts.{IsUpload, upload_file-IsUpload}

abbrev file : Bytes
file = 10 ∷ 11 ∷ 12 ∷ 13 ∷ 14 ∷ []

abbrev in_twos : FileTransport
in_twos = record {
  chunk_size = 2;
  retry_policy = record { delays = 0 ∷ 0 ∷ []; timeout = 5; max_retries = none };
}

-- The world counts the requests.
abbrev answer_file : String → ChunkHeaders → ℕ → ℕ → ChunkReply × ℕ
answer_file url h timeout n = (
  answered (record {
    status_code = 200;
    text = "";
    content = range_of file h.start_index h.last_index;
    total_length = "";
    total_dash_length = "";
  }),
  suc n,
)

answer_file-Arrives :
    (url : String) (h : ChunkHeaders) (timeout n : ℕ)
    → Arrives file h (answer_file url h timeout n).0
unfolding read_length
answer_file-Arrives url h timeout n = (ground arith, (refl, inl refl))

abbrev request : FileRequest
request = record {
  auth = "a";
  file_id = "1";
  access_hash_rec = "h";
  url = "";
  dc_id = some "2";
  file_size = some 5;
  has_destination = false;
  in_memory = true;
}

-- Every other request times out.
abbrev serve_late : String → ChunkHeaders → ℕ → Bool → ChunkReply × Bool
serve_late url h timeout true = (timed_out, false)
serve_late url h timeout false = ((answer_file url h timeout 0).0, true)

serve_late-Honest :
    (url : String) (h : ChunkHeaders) (timeout : ℕ) (b : Bool)
    → Honest file h (serve_late url h timeout b).0
unfolding read_length
serve_late-Honest url h timeout true = tt
serve_late-Honest url h timeout false = λ low. (refl, inl refl)

download_file-IsDownload_example : IsDownload file (download_file serve_late in_twos 6 request true)
download_file-IsDownload_example =
    download_file-IsDownload file serve_late in_twos serve_late-Honest (ground arith) 6 request true
      (inr refl) (ground arith)

download_file-finishes_example :
    let r = download_file answer_file in_twos 6 request 0 in (r.0 ≡ finished) × (r.1.written ≡ file)
unfolding checked rubigram.Network.Transfers.Download.fallback_storage_url rubigram.Base.concat
download_file-finishes_example =
    download_file-finishes file answer_file in_twos answer_file-Arrives (ground arith) 6 request
      "https://messanger2.iranlms.ir/GetFile.ashx" 0 refl (inr refl) (ground arith)

-- A server that takes every other part it is sent.
abbrev take_parts : String → Part → ℕ → Bool → PartReply × Bool
take_parts url part timeout true = (late, false)
take_parts url part timeout false = (
  replied 200 "" (payload (record { status = "OK"; status_det = "OK"; access_hash_rec = "r" })),
  true,
)

abbrev descriptor : UploadDescriptor
descriptor = record {
  id = some "1";
  dc_id = "2";
  access_hash_send = "s";
  access_hash_rec = "";
  upload_url = "https://upload";
}

upload_file-IsUpload_example :
    IsUpload file 2 (upload_file take_parts in_twos "a" descriptor (some file) true)
upload_file-IsUpload_example =
    upload_file-IsUpload file take_parts in_twos (ground arith) "a" descriptor true

-- A stream of two chunks and an empty one.
streamed :
    (download_url "u" true false (
      opened (record {
        status_code = 200;
        content_length = "";
        chunks = (1 ∷ []) ∷ [] ∷ (2 ∷ []) ∷ [];
        ends = complete;
      }))).1.written
    ≡ 1 ∷ 2 ∷ []
unfolding download_url read_length rubigram.Network.Transfers.Download.Stream.read_chunks
    rubigram.Network.Transfers.Download.received rubigram.Network.Transfers.Download.begun
streamed = refl

three_parts : part_count 5 2 ≡ 3
unfolding part_count
three_parts = refl

one_empty_part : part_count 0 131072 ≡ 1
unfolding part_count
one_empty_part = refl

known_lengths : (read_length "12" ≡ ok (some 12)) × (read_length "1x" ≡ ok none)
unfolding read_length rubigram.Base.Texts.all_chars rubigram.Base.Digits.is_digit
    rubigram.Base.Digits.digit_value rubigram.Base.Digits.value_in rubigram.Base.Numbers.int_of
    rubigram.Base.Numbers.read_signed rubigram.Base.strip rubigram.Base.Numbers.read_digits
    rubigram.Base.Digits.decimal_value rubigram.Base.Digits.decimal_in
known_lengths = (refl, refl)
