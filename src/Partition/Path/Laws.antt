-- ===== src/Partition/Path/Laws.antt =====
-- The walk over a path's segments: what a segment of a declared key adds, and which changes of a
-- path leave its partition values alone.
use parquet_azure_fdw.Prelude.{
  ◌≡◌, refl, ap, ◌∙◌, false, none, some, List, [], ◌∷◌, ◌++◌, Bytes, contains, split, split-one,
  split-append, split_once-append, split_once-none, is_empty, arith,
}
use parquet_azure_fdw.Error.{ok, err, ◌>>=◌}
use parquet_azure_fdw.Partition.Path.{
  Declared, Found, get, find_declared, add_segment, add_segments,
}

pub add_segments-append :
    (d : Declared) (xs ys : List Bytes) (f : Found)
    → add_segments d (xs ++ ys) f ≡ (add_segments d xs f >>= add_segments d ys)
unfolding add_segments
add_segments-append d [] ys f = refl
add_segments-append d (x ∷ xs) ys f =
    elim (add_segment d f x)
      as (λ r.
        (r >>= add_segments d (xs ++ ys)) ≡ ((r >>= add_segments d xs) >>= add_segments d ys)) [
          | ok g ↦ add_segments-append d xs ys g
          | err e ↦ refl
        ]

pub add_segments-one :
    (d : Declared) (s : Bytes) (f : Found) → add_segments d (s ∷ []) f ≡ add_segment d f s
unfolding add_segments
add_segments-one d s f = ground arith

-- A segment with no `=` adds nothing.
pub add_segment-plain :
    (d : Declared) (f : Found) (s : Bytes) → contains s b'=' ≡ false → add_segment d f s ≡ ok f
unfolding add_segment
add_segment-plain d f s h = rw (split_once-none s b'=' h, add_segment)

-- `name=value`, for a declared name that has not been found yet, adds the pair.
pub add_segment-new :
    (d : Declared) (f : Found) (n v : Bytes)
    → contains n b'=' ≡ false
    → find_declared d n ≡ some n
    → is_empty v ≡ false
    → contains v b'%' ≡ false
    → get n f ≡ none
    → add_segment d f (n ++ b'=' ∷ v) ≡ ok (f ++ (n, v) ∷ [])
unfolding add_segment
add_segment-new d f n v h found filled plain new =
    rw (split_once-append n v b'=' h, found, filled, plain, new, add_segment)

pub get-append : (k : Bytes) (f g : Found) → get k f ≡ none → get k (f ++ g) ≡ get k g
unfolding get
get-append k [] g h = refl
get-append k ((j, v) ∷ f) g h = ground (arith, get-append k f g)

-- The last segment of a joined path is walked last.
pub walk-join :
    (d : Declared) (p s : Bytes) (f : Found)
    → contains s b'/' ≡ false
    → add_segments d (split (p ++ b'/' ∷ s) b'/') f
      ≡ (add_segments d (split p b'/') f >>= λ g. add_segment d g s)
walk-join d p s f h =
    rw (split-append p s b'/', split-one s b'/' h)
      (add_segments-append d (split p b'/') (s ∷ []) f
        ∙ ap (λ k. add_segments d (split p b'/') f >>= k) (λ i g. add_segments-one d s g i))
