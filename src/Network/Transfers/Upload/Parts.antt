-- ===== src/Network/Transfers/Upload/Parts.antt =====
-- Uploads: the parts that a server takes, beside the file.
use rubigram.Network.Retry.Ladder.{run_with_retries-InLadder, IsEnded}
use rubigram.Network.Retry.{Ending, gave, raised, was_cancelled, fell_through}
use native.Mathlib.Nat.{suc-mul, lt-div-mul-add}
use rubigram.Base.{
  if_split, is_empty, if◌then◌else◌, Option, none, length, take, drop, length-append, length-take,
  take-append-drop, drop-drop, take_all, ℕ, zero, suc, ◌+◌, ◌-◌, ◌*◌, ◌/◌, ◌≤◌, ◌<◌, max, String,
  ◌≡◌, refl, sym, ap, ◌∙◌, some, List, [], ◌∷◌, ◌++◌, arith,
}
use rubigram.Network.Transfers.{
  Bytes, Failure, retry_with, plainly, is_retry, finished, was_interrupted, no_answer, out_of_turns,
  raised_error, part_error, FileTransport,
}
use rubigram.Network.Transfers.Upload.{
  UploadError, Part, PartPayload, PartReply, part_count, UploadDescriptor, Uploading, Upload,
  next_part, part_taken, after_part, send_once, send_part, send_parts, upload_file, upload_to,
  upload_checked, upload_started, no_auth, no_upload_url, no_upload_id, no_access_hash_send,
}

-- The bytes of parts, one after another.
abbrev pub bodies : List Part → Bytes
bodies [] = []
bodies (p ∷ ps) = p.content ++ bodies ps

-- Parts numbered from `i` on, each with its own size and the number of all parts.
abbrev pub Numbered : ℕ → ℕ → ℕ → List Part → Type 0
Numbered chunk_size total i [] = Unit
Numbered chunk_size total i (p ∷ ps) =
    (p.part_number ≡ i)
    × (p.total_part ≡ total)
    × (p.size ≡ length p.content)
    × (p.size ≤ chunk_size)
    × Numbered chunk_size total (suc i) ps

-- How an upload of the file ends: all its parts were taken, or else some of the first ones.
unfoldable pub IsUpload : {W : Type 0} → Bytes → ℕ → Upload W → Type 0
IsUpload file chunk_size (finished, u, w) =
    (bodies u.taken ≡ file)
    × (length u.taken ≡ part_count (length file) chunk_size)
    × Numbered chunk_size (part_count (length file) chunk_size) 1 u.taken
    × (u.uploaded ≡ length file)
IsUpload file chunk_size (was_interrupted, u, w) = (n : ℕ) × (bodies u.taken ≡ take n file)
IsUpload file chunk_size (raised_error e, u, w) = (n : ℕ) × (bodies u.taken ≡ take n file)
IsUpload file chunk_size (no_answer, u, w) = ⊥
IsUpload file chunk_size (out_of_turns, u, w) = ⊥

bodies-last : (ps : List Part) (p : Part) → bodies (ps ++ p ∷ []) ≡ bodies ps ++ p.content
bodies-last [] p = go p.content
  where
    go : (xs : Bytes) → xs ++ [] ≡ xs
    go [] = refl
    go (x ∷ xs) = ap (λ (ys : Bytes). x ∷ ys) (go xs)
bodies-last (q ∷ qs) p = ap (λ (ys : Bytes). q.content ++ ys) (bodies-last qs p) ∙ go q.content
  where
    go : (xs : Bytes) → xs ++ (bodies qs ++ p.content) ≡ (xs ++ bodies qs) ++ p.content
    go [] = refl
    go (x ∷ xs) = ap (λ (ys : Bytes). x ∷ ys) (go xs)

Numbered-last :
    (c total i n : ℕ) (ps : List Part) (p : Part)
    → n ≡ i + length ps
    → Numbered c total i ps
    → p.part_number ≡ n
    → p.total_part ≡ total
    → p.size ≡ length p.content
    → p.size ≤ c
    → Numbered c total i (ps ++ p ∷ [])
Numbered-last c total i n [] p k h number whole size small =
    (number ∙ (omega (arith, k)), whole, size, small, tt)
Numbered-last c total i n (q ∷ qs) p k h number whole size small = (
  h.0,
  h.1,
  h.2,
  h.3,
  Numbered-last c total (suc i) n qs p (omega (arith, k)) h.4 number whole size small,
)

-- The parts reach to the end of the file.
part_count-reaches : (size c : ℕ) → 1 ≤ c → size ≤ part_count size c * c
unfolding part_count
part_count-reaches size c room = go ((size + (c - 1)) / c) (lt-div-mul-add room)
  where
    go : (q : ℕ) → size + (c - 1) < q * c + c → size ≤ max 1 q * c
    go zero h = omega (arith, h, room)
    go (suc q) h = let e : max 1 (suc q) ≡ suc q = omega arith in rw e (omega (arith, h, room))

module _ {W : Type 0} (file : Bytes) (post : String → Part → ℕ → W → PartReply × W)
    (t : FileTransport) (room : 1 ≤ t.chunk_size) where
  abbrev c : ℕ
  c = t.chunk_size

  abbrev total : ℕ
  total = part_count (length file) c

  -- An upload that has come to the part `i`.
  record Under (i : ℕ) (u : Uploading) : Type 0 where
    pub at : u.index ≡ i
    pub so_far : bodies u.taken ≡ take (i * c) file
    pub left : u.left ≡ drop (i * c) file
    pub numbered : Numbered c total 1 u.taken
    pub many : length u.taken ≡ i
    pub uploaded : u.uploaded ≡ length (bodies u.taken)

  next-Under :
      (i : ℕ) (u : Uploading) (p : PartPayload)
      → Under i u
      → Under (suc i) (part_taken c (length file) (next_part c total u) p u)
  unfolding part_taken next_part
  next-Under i u p h = record {
    at = omega (arith, h.at);
    so_far =
        bodies-last u.taken part
        ∙ ap (λ (xs : Bytes). xs ++ part.content) h.so_far
        ∙ ap (λ (xs : Bytes). take (i * c) file ++ take c xs) h.left
        ∙ take-append-drop (i * c) c file
        ∙ ap (λ (n : ℕ). take n file) (sym (suc-mul i c));
    left =
        ap (drop c) h.left
        ∙ drop-drop (i * c) c file
        ∙ ap (λ (n : ℕ). drop n file) (sym (suc-mul i c));
    numbered =
        Numbered-last c total 1 (u.index + 1) u.taken part (omega (arith, h.at, h.many)) h.numbered
          refl refl refl (omega (arith, length-take c u.left));
    many = length-append u.taken (part ∷ []) ∙ omega (arith, h.many);
    uploaded =
        ap (λ (n : ℕ). n + part.size) h.uploaded
        ∙ sym (length-append (bodies u.taken) part.content)
        ∙ ap length (sym (bodies-last u.taken part));
  }
    where
      part : Part
      part = next_part c total u

  after-IsUpload :
      (i : ℕ) (u : Uploading) (rest : Uploading → W → Upload W)
      (x : Ending (Failure UploadError) PartPayload × W)
      → Under i u
      → IsEnded x.0
      → ((v : Uploading) (w : W) → Under (suc i) v → IsUpload file c (rest v w))
      → IsUpload file c (after_part c (length file) rest (next_part c total u) u x)
  unfolding after_part IsUpload part_error
  after-IsUpload i u rest (gave p, w) h ended later = later _ w (next-Under i u p h)
  after-IsUpload i u rest (was_cancelled, w) h ended later = (i * c, h.so_far)
  after-IsUpload i u rest (raised (retry_with e), w) h ended later = (i * c, h.so_far)
  after-IsUpload i u rest (raised (plainly e), w) h ended later = (i * c, h.so_far)
  after-IsUpload i u rest (fell_through, w) h ended later = absurd ended

  send_parts-IsUpload :
      (url : String) (turns i : ℕ) (u : Uploading) (w : W)
      → turns + i ≡ total
      → Under i u
      → IsUpload file c (send_parts post t turns url (length file) total u w)
  unfolding send_parts send_part IsUpload
  send_parts-IsUpload url zero i u w e h =
      (whole, h.many ∙ omega (arith, e), h.numbered, h.uploaded ∙ ap length whole)
    where
      whole : bodies u.taken ≡ file
      whole =
          h.so_far
          ∙ ap (λ (n : ℕ). take (n * c) file) (omega (arith, e))
          ∙ take_all (total * c) file (part_count-reaches (length file) c room)
  send_parts-IsUpload url (suc turns) i u w e h =
      let part = next_part c total u in
      after-IsUpload i u (send_parts post t turns url (length file) total)
        (send_part post t url part w) h
        (run_with_retries-InLadder t.retry_policy is_retry (send_once post t url part) (λ j x v. v)
          w).0
        (λ v k g. send_parts-IsUpload url turns (suc i) v k (omega (arith, e)) g)

  -- Whatever the server answers, an upload comes to an end. If it finished, the parts that the server
  -- took are the file when put together, in order, numbered from one, none larger than the part
  -- size, as many as they say and as `part_count` says; otherwise those that it took are a start
  -- of the file.
  pub upload_file-IsUpload :
      (auth : String) (d : UploadDescriptor) (w : W)
      → IsUpload file c (upload_file post t auth d (some file) w)
  unfolding upload_file IsUpload
  upload_file-IsUpload auth d w =
      if_split (IsUpload file c) (is_empty auth) (raised_error no_auth, nothing, w)
        (with_url d.upload_url) (λ e. (0, refl))
        (λ e.
          if_split (IsUpload file c) (is_empty d.upload_url)
            (raised_error no_upload_url, nothing, w) (with_id d.id) (λ e. (0, refl)) (λ e. go d.id))
    where
      start : 0 ≡ 0 * c
      start = omega arith

      nothing : Uploading
      nothing = upload_started post t d []

      with_id : Option String → Upload W
      with_id o = elim o [
        | none ↦ (raised_error no_upload_id, nothing, w)
        | some id ↦ upload_checked post t d (some file) w
      ]

      with_url : String → Upload W
      with_url url = if is_empty url then (raised_error no_upload_url, nothing, w) else with_id d.id

      go : (o : Option String) → IsUpload file c (with_id o)
      go none = (0, refl)
      go (some id) =
          if_split (IsUpload file c) (is_empty d.access_hash_send)
            (raised_error no_access_hash_send, nothing, w) (upload_to post t d (some file) w)
            (λ e. (0, refl))
            (λ e.
              send_parts-IsUpload d.upload_url total 0 (upload_started post t d file) w
                (omega arith)
                (record {
                  at = refl;
                  so_far = ap (λ (n : ℕ). take n file) start;
                  left = ap (λ (n : ℕ). drop n file) start;
                  numbered = tt;
                  many = refl;
                  uploaded = refl;
                }))
