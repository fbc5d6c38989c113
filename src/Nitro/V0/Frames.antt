-- ===== src/Nitro/V0/Frames.antt =====
-- Messages framed by their positions and lengths.
use espresso_streamers.Base.{
  ℕ, suc, ◌+◌, ◌≡◌, refl, ◌++◌, length, drop, arith, length-append, drop-append,
}
use espresso_streamers.Nitro.Bytes.{Bytes, put_uint64}

-- A message as it is written, in front of other bytes.
abbrev pub framed : ℕ → Bytes → Bytes → Bytes
framed pos encoded rest = put_uint64 pos ++ (put_uint64 (length encoded) ++ (encoded ++ rest))

pub length-framed :
    (pos : ℕ) (encoded rest : Bytes)
    → length (framed pos encoded rest) ≡ 16 + length encoded + length rest
unfolding put_uint64
length-framed pos encoded rest = ground (arith, length-append encoded rest)

pub drop_header :
    (pos : ℕ) (encoded rest : Bytes)
    → drop 8 (framed pos encoded rest) ≡ put_uint64 (length encoded) ++ (encoded ++ rest)
unfolding put_uint64
drop_header pos encoded rest = refl

pub drop_headers :
    (pos : ℕ) (encoded rest : Bytes) → drop 16 (framed pos encoded rest) ≡ encoded ++ rest
unfolding put_uint64
drop_headers pos encoded rest = refl

pub drop-framed :
    (pos : ℕ) (encoded rest : Bytes) → drop (16 + length encoded) (framed pos encoded rest) ≡ rest
unfolding put_uint64
drop-framed pos encoded rest =
    let e : 16 + length encoded
        ≡ suc (
            suc (
              suc (
                suc (
                  suc (
                    suc (
                      suc (
                        suc
                          (suc (suc (suc (suc (suc (suc (suc (suc (length encoded)))))))))))))))) =
      omega arith in
    rw e (drop-append encoded rest)
