-- ===== src/Compression/Compressors.antt =====
-- The MIME types that are worth compressing, the names of the encodings, and the results of the
-- compressors (compression.c); zlib and Brotli are arguments.
use lamseryn.Prelude.{
  ℕ, ◌-◌, ◌%◌, ◌^◌, ◌≤◌, ◌<◌, Bool, true, false, ◌&&◌, ◌||◌, not, Option, none, some, List, [], ◌∷◌,
  Bytes, codes, ltb, leb, ◌==◌, if◌then◌else◌, length, ◌≡◌, arith, if_both, subst, refl,
}

abbrev pub starts_with : Bytes → Bytes → Bool
starts_with [] s = true
starts_with (p ∷ ps) [] = false
starts_with (p ∷ ps) (c ∷ s) = p == c && starts_with ps s

-- The types that compression does not make smaller.
abbrev pub skipped_types : List Bytes
skipped_types =
    codes "image/jpeg"
    ∷ codes "image/png"
    ∷ codes "image/gif"
    ∷ codes "image/webp"
    ∷ codes "image/avif"
    ∷ codes "image/bmp"
    ∷ codes "image/tiff"
    ∷ codes "font/woff"
    ∷ codes "application/zip"
    ∷ codes "application/gzip"
    ∷ codes "application/x-gzip"
    ∷ codes "application/x-bzip2"
    ∷ codes "application/x-xz"
    ∷ codes "application/x-rar"
    ∷ codes "application/x-7z"
    ∷ codes "application/octet-stream"
    ∷ codes "video/"
    ∷ codes "audio/"
    ∷ []

abbrev pub has_prefix : List Bytes → Bytes → Bool
has_prefix [] s = false
has_prefix (p ∷ ps) s = starts_with p s || has_prefix ps s

unfoldable pub compress_mime_is_compressible : Option Bytes → Bool
compress_mime_is_compressible none = false
compress_mime_is_compressible (some mime_type) = not (has_prefix skipped_types mime_type)

unfoldable pub compress_enc_ext : ℕ → Option Bytes
compress_enc_ext enc =
    if enc == 1 then some (codes ".gz") else if enc == 2 then some (codes ".br") else none

unfoldable pub compress_enc_name : ℕ → Option Bytes
compress_enc_name enc =
    if enc == 1 then some (codes "gzip") else if enc == 2 then some (codes "br") else none

-- `enum compress_result`, the first with the buffer.
pub data CompressResult : Type 0 where
  compress_ok : Bytes → CompressResult
  compress_expanded compress_error : CompressResult

-- What zlib does: `deflateInit2` with a level, `deflateBound`, and `deflate` of the input into so many
-- bytes, which is the output at its end, or `none`.
pub record Zlib : Type 0 where
  pub deflate_init : Option ℕ → Bool
  pub deflate_bound : ℕ → ℕ
  pub deflate : Option ℕ → Bytes → ℕ → Option Bytes

-- A result that is not smaller is given up; `bound - avail_out` counts what has been put out, from the
-- 32 bits of `avail_out`.
abbrev pub deflated : ℕ → ℕ → Option Bytes → CompressResult
deflated src_len bound none = compress_error
deflated src_len bound (some out) =
    if leb src_len (bound - (bound % 2 ^ 32 - length out))
    then compress_expanded
    else compress_ok out

-- The level 0 stands for the default, which is `none` here.
unfoldable pub compress_gzip : Zlib → Bool → Bytes → ℕ → CompressResult
compress_gzip z alloc src level =
    let chosen = if level == 0 then none else some level in
    let bound = z.deflate_bound (length src) in
    if ltb (2 ^ 32 - 1) (length src)
    then compress_error
    else if not (z.deflate_init chosen)
    then compress_error
    else if not alloc
    then compress_error
    else deflated (length src) bound (z.deflate chosen src (bound % 2 ^ 32))

-- What the Brotli encoder does: the largest size of a result, and the compression into so many bytes.
pub record Brotli : Type 0 where
  pub max_compressed_size : ℕ → ℕ
  pub compress : ℕ → Bytes → ℕ → Option Bytes

abbrev pub encoded : ℕ → Option Bytes → CompressResult
encoded src_len none = compress_error
encoded src_len (some out) = if leb src_len (length out) then compress_expanded else compress_ok out

abbrev pub or_four : Option ℕ → ℕ
or_four none = 4
or_four (some q) = q

-- A negative quality, `none` here, stands for 4.
unfoldable pub compress_brotli : Brotli → Bool → Bytes → Option ℕ → CompressResult
compress_brotli b alloc src quality =
    let size = b.max_compressed_size (length src) in
    let chosen = or_four quality in
    if size == 0
    then compress_error
    else if not alloc
    then compress_error
    else encoded (length src) (b.compress chosen src size)

-- The output of the compressor fits what it is given.
unfoldable pub DeflateFits : Zlib → Type 0
DeflateFits z =
    (level : Option ℕ) (src : Bytes) (n : ℕ) (out : Bytes)
    → z.deflate level src n ≡ some out
    → length out ≤ n

Smaller : Bytes → CompressResult → Type 0
Smaller src (compress_ok out) = length out < length src
Smaller src compress_expanded = Unit
Smaller src compress_error = Unit

deflated-Smaller :
    (src : Bytes) (bound : ℕ) (o : Option Bytes)
    → ((out : Bytes) → o ≡ some out → length out ≤ bound % 2 ^ 32)
    → Smaller src (deflated (length src) bound o)
unfolding Smaller
deflated-Smaller src bound none fits = tt
deflated-Smaller src bound (some out) fits =
    if_both (Smaller src) (leb (length src) (bound - (bound % 2 ^ 32 - length out))) (λ e. tt)
      (λ e.
        below (length src) (bound - (bound % 2 ^ 32 - length out)) (length out) e
          (omega (arith, fits out refl)))
  where
    below : (n m k : ℕ) → leb n m ≡ false → k ≤ m → k < n
    below n m k e h = ground (arith, e, h)

compress_gzip-Smaller :
    (z : Zlib) (alloc : Bool) (src : Bytes) (level : ℕ)
    → DeflateFits z
    → Smaller src (compress_gzip z alloc src level)
unfolding compress_gzip Smaller DeflateFits
compress_gzip-Smaller z alloc src level fits =
    let chosen = if level == 0 then none else some level in
    let bound = z.deflate_bound (length src) in
    if_both (Smaller src) (ltb (2 ^ 32 - 1) (length src)) (λ e. tt)
      (λ e.
        if_both (Smaller src) (not (z.deflate_init chosen)) (λ e. tt)
          (λ e.
            if_both (Smaller src) (not alloc) (λ e. tt)
              (λ e.
                deflated-Smaller src bound (z.deflate chosen src (bound % 2 ^ 32))
                  (fits chosen src (bound % 2 ^ 32)))))

-- What compress_gzip returns as a success is smaller than its input, if deflate writes no more than it has room for,
-- whatever the bound is, also one above the 32 bits that zlib counts with.
pub compress_gzip_smaller :
    (z : Zlib) (alloc : Bool) (src : Bytes) (level : ℕ) (out : Bytes)
    → DeflateFits z
    → compress_gzip z alloc src level ≡ compress_ok out
    → length out < length src
unfolding Smaller
compress_gzip_smaller z alloc src level out fits e =
    subst (Smaller src) e (compress_gzip-Smaller z alloc src level fits)
