-- ===== src/Network/Transfers/Download/Chunks.antt =====
-- Downloads: one turn, from a chunk to what the download is then.
use rubigram.Base.{
  ltb, Bool-cases, length, take, drop, length-take, length-drop, take-append-drop, take_all, ℕ,
  zero, suc, ◌+◌, ◌-◌, ◌≤◌, ◌<◌, min, ◌≡◌, refl, ap, ◌∙◌, ◌⊎◌, inl, inr, true, Option, none, some,
  [], ◌∷◌, ◌++◌, arith,
}
use rubigram.Network.Retry.{Ending, gave, was_cancelled, raised, fell_through}
use rubigram.Network.Retry.Given.{Gives}
use rubigram.Network.Retry.Ladder.{IsEnded}
use rubigram.Network.Transfers.{Bytes, Failure, retry_with, plainly, part_error}
use rubigram.Network.Transfers.Download.{
  DownloadError, Downloading, learned, received, Download, after_chunk, known_size, is_reached,
}
use rubigram.Network.Transfers.Download.Ranges.{range_of, IsDownload, IsPart}

-- A download under way: it holds the file up to `start`, and knows no size but the file's.
pub record Going (file : Bytes) (d : Downloading) : Type 0 where
  pub written : d.written ≡ take d.start file
  pub within : d.start ≤ length file
  pub downloaded : d.downloaded ≡ d.start
  pub total : (d.total ≡ none) ⊎ ((d.total ≡ some (length file)) × (1 ≤ length file))

abbrev pub IsSize : Bytes → Option ℕ → Type 0
IsSize file o = (o ≡ none) ⊎ (o ≡ some (length file))

pub known_size-IsKnown :
    (file : Bytes) (o : Option ℕ)
    → IsSize file o
    → (known_size o ≡ none) ⊎ ((known_size o ≡ some (length file)) × (1 ≤ length file))
known_size-IsKnown file o (inl e) = rw e (inl refl)
known_size-IsKnown file o (inr e) = rw e (go (length file))
  where
    go : (n : ℕ) → (known_size (some n) ≡ none) ⊎ ((known_size (some n) ≡ some n) × (1 ≤ n))
    go zero = inl refl
    go (suc n) = inr (refl, omega arith)

pub learned-IsKnown :
    (file : Bytes) (total length_ : Option ℕ)
    → (total ≡ none) ⊎ ((total ≡ some (length file)) × (1 ≤ length file))
    → IsSize file length_
    → (learned total length_ ≡ none)
      ⊎ ((learned total length_ ≡ some (length file)) × (1 ≤ length file))
unfolding learned
learned-IsKnown file (some n) length_ h k = h
learned-IsKnown file none length_ h k = known_size-IsKnown file length_ k

pub reached-length :
    (file : Bytes) (o : Option ℕ) (n : ℕ)
    → (o ≡ none) ⊎ ((o ≡ some (length file)) × (1 ≤ length file))
    → is_reached o n ≡ true
    → length file ≤ n
reached-length file o n (inl e) h = absurd (ground (arith, rw e at h))
reached-length file o n (inr e) h = ground (arith, rw e.0 at h)

pub range-length :
    (file : Bytes) (start end : ℕ)
    → length (range_of file start end) ≡ min (end + 1 - start) (length file - start)
range-length file start end =
    length-take (end + 1 - start) (drop start file)
    ∙ ap (min (end + 1 - start)) (length-drop start file)

-- A range after what was written.
pub extended :
    (file : Bytes) (start end : ℕ)
    → start ≤ end
    → take start file ++ range_of file start end ≡ take (end + 1) file
extended file start end h =
    take-append-drop start (end + 1 - start) file ∙ ap (λ n. take n file) (omega (arith, h))

module _ {W : Type 0} (file : Bytes) (rest : Downloading → W → Download W) (end : ℕ)
    (d : Downloading) (going : Going file d) (forward : d.start ≤ end)
    (rest-IsDownload : (d' : Downloading) (w : W)
      → Going file d'
      → d.start < d'.start
      → IsDownload file (rest d' w)) where
  full : (n : ℕ) → length file ≤ n → take n file ≡ file
  full n h = take_all n file h

  pub chunk-IsDownload :
      (byte : ℕ) (bytes : Bytes) (length_ : Option ℕ) (w : W)
      → IsPart file d.start end (byte ∷ bytes, length_)
      → IsDownload file (after_chunk rest end d (gave (byte ∷ bytes, length_), w))
  unfolding after_chunk received IsDownload
  chunk-IsDownload byte bytes length_ w part = elim (Bool-cases (is_reached total downloaded)) [
    | inl t ↦
        rw (t, after_chunk)
          (whole (
            omega (
              arith,
              reached-length file total downloaded known t,
              size,
              going.downloaded,
              forward,
            )))
    | inr t ↦ elim (Bool-cases (ltb (length chunk) (end + 1 - d.start))) [
      | inl u ↦ rw (t, u, after_chunk) (whole (ground (arith, size, u, forward, going.within)))
      | inr u ↦
          rw (t, u, after_chunk)
            (rest-IsDownload _ w
              (record {
                written = so_far;
                within = ground (arith, size, u, forward, going.within);
                downloaded = ground (arith, size, u, forward, going.within, going.downloaded);
                total = known;
              })
              (omega (arith, forward)))
    ]
  ]
    where
      chunk : Bytes
      chunk = byte ∷ bytes

      total : Option ℕ
      total = learned d.total length_

      downloaded : ℕ
      downloaded = d.downloaded + length chunk

      known : (total ≡ none) ⊎ ((total ≡ some (length file)) × (1 ≤ length file))
      known = learned-IsKnown file d.total length_ going.total part.1

      size : length chunk ≡ min (end + 1 - d.start) (length file - d.start)
      size = ap length part.0 ∙ range-length file d.start end

      so_far : d.written ++ chunk ≡ take (end + 1) file
      so_far =
          ap (λ (xs : Bytes). xs ++ chunk) going.written
          ∙ ap (λ (xs : Bytes). take d.start file ++ xs) part.0
          ∙ extended file d.start end forward

      whole : length file ≤ end + 1 → d.written ++ chunk ≡ file
      whole h = so_far ∙ full (end + 1) h

  pub after-IsDownload :
      (x : Ending (Failure DownloadError) (Bytes × Option ℕ) × W)
      → IsEnded x.0
      → Gives (IsPart file d.start end) x.0
      → IsDownload file (after_chunk rest end d x)
  unfolding after_chunk IsDownload part_error
  after-IsDownload (gave ([], length_), w) ended part =
      going.written
      ∙ full d.start (omega (arith, forward, ap length part.0 ∙ range-length file d.start end))
  after-IsDownload (gave (byte ∷ bytes, length_), w) ended part =
      chunk-IsDownload byte bytes length_ w part
  after-IsDownload (was_cancelled, w) ended part = (d.start, going.written)
  after-IsDownload (raised (retry_with e), w) ended part = (d.start, going.written)
  after-IsDownload (raised (plainly e), w) ended part = (d.start, going.written)
  after-IsDownload (fell_through, w) ended part = absurd ended
