-- ===== src/Op/Buffered/Window.antt =====
-- The window of the buffered streamer: consecutive batches, the streamer below just behind them.
use espresso_streamers.Base.{
  ℕ, zero, suc, ◌+◌, ◌≤◌, ◌<◌, ◌≡◌, refl, some, List, [], ◌∷◌, ◌++◌, length, get_elem?, take, drop,
  arith,
}
use espresso_streamers.Op.Batch.{Batch}
use espresso_streamers.Op.Interface.{EspressoStreamer, Lawful}
use espresso_streamers.Op.Buffered.{BufferedStreamer}

-- The batches have the numbers `n`, `n + 1`, …
abbrev pub Numbered : ℕ → List Batch → Type 0
Numbered n [] = Unit
Numbered n (x ∷ xs) = (x.number ≡ n) × Numbered (n + 1) xs

pub Numbered-append :
    (n : ℕ) (xs : List Batch) (x : Batch)
    → Numbered n xs
    → x.number ≡ n + length xs
    → Numbered n (xs ++ (x ∷ []))
Numbered-append n [] x h e = (ground arith, tt)
Numbered-append n (y ∷ ys) x (e1, h) e = (e1, Numbered-append (n + 1) ys x h (ground arith))

pub Numbered-drop :
    (n k : ℕ) (xs : List Batch) → Numbered n xs → k ≤ length xs → Numbered (n + k) (drop k xs)
Numbered-drop n zero xs h l = let e : n + 0 ≡ n = omega arith in rw e h
Numbered-drop n (suc k) [] h l = tt
Numbered-drop n (suc k) (x ∷ xs) (e, h) l =
    let e' : n + suc k ≡ (n + 1) + k = omega arith in
    rw e' (Numbered-drop (n + 1) k xs h (omega arith))

pub Numbered-take : (n k : ℕ) (xs : List Batch) → Numbered n xs → Numbered n (take k xs)
Numbered-take n zero xs h = tt
Numbered-take n (suc k) [] h = tt
Numbered-take n (suc k) (x ∷ xs) (e, h) = (e, Numbered-take (n + 1) k xs h)

pub Numbered-get_elem? :
    (n k : ℕ) (xs : List Batch)
    → Numbered n xs
    → k < length xs
    → (x : Batch) × (get_elem? xs k ≡ some x) × (x.number ≡ n + k)
Numbered-get_elem? n k [] h l = ground arith
Numbered-get_elem? n zero (x ∷ xs) (e, h) l = (x, refl, ground arith)
Numbered-get_elem? n (suc k) (x ∷ xs) (e, h) l =
    let (y, e', m) = Numbered-get_elem? (n + 1) k xs h (omega arith) in (y, e', ground arith)

-- The window starts at `n`; the streamer below continues it; the read position is in
-- it.
pub record IsRun {i : EspressoStreamer} (l : Lawful i) (n : ℕ) (b : BufferedStreamer i)
    : Type 0 where
  pub numbered : Numbered n b.batches
  pub due : l.position b.streamer ≡ n + length b.batches
  pub read : b.read_pos ≤ length b.batches
  pub valid : l.Valid b.streamer
