-- ===== src/Task/PriorityQueue/Order.antt =====
-- The comparison of `sortDesc` is a strict weak order; what the loop over the items finds; and a
-- list stays sorted when an item is taken out.
use catgirl.Base.{
  ◌≡◌, refl, ap, Bool, true, false, List, [], ◌∷◌, ◌++◌, All, Option, none, some, inl, inr, arith,
  Bool-cases, length, suc,
}
use catgirl.Models.{TaskInstance}
use catgirl.SortSlice.{IsSorted, IsStrictWeak}
use catgirl.Task.PriorityQueue.{less, extract, push_front}

-- So `sort.Slice` may be called with it.
pub less-IsStrictWeak : IsStrictWeak less
less-IsStrictWeak = record {
  irrefl = λ a. ground arith;
  trans = λ a b c h k. ground arith;
  not_less_trans = λ a b c h k. ground arith;
}

-- The first item that passes, with what stands before and behind it; or none passes.
abbrev pub IsExtract :
    (TaskInstance → Bool) → List TaskInstance → Option (TaskInstance × List TaskInstance) → Type 0
IsExtract p tasks none = All (λ t. p t ≡ false) tasks
IsExtract p tasks (some (task, rest)) =
    (before : List TaskInstance) × (after : List TaskInstance) × (tasks ≡ before ++ task ∷ after)
    × (rest ≡ before ++ after)
    × (p task ≡ true)
    × All (λ t. p t ≡ false) before

push_front-IsExtract :
    (p : TaskInstance → Bool) (t : TaskInstance) (ts : List TaskInstance)
    (o : Option (TaskInstance × List TaskInstance))
    → p t ≡ false
    → IsExtract p ts o
    → IsExtract p (t ∷ ts) (push_front t o)
push_front-IsExtract p t ts none e h = (e, h)
push_front-IsExtract p t ts (some (task, rest)) e
      (before, after, whole, others, passes, none_before) =
    (t ∷ before, after, ap (◌∷◌ t) whole, ap (◌∷◌ t) others, passes, (e, none_before))

pub extract-IsExtract :
    (p : TaskInstance → Bool) (tasks : List TaskInstance) → IsExtract p tasks (extract p tasks)
unfolding extract
extract-IsExtract p [] = tt
extract-IsExtract p (t ∷ ts) = elim (Bool-cases (p t)) [
  | inl e ↦ rw e ([], ts, refl, refl, e, tt)
  | inr e ↦ rw e (push_front-IsExtract p t ts (extract p ts) e (extract-IsExtract p ts))
]

-- What a predicate says of every item, it says of the others when one is taken out.
pub All-middle :
    (P : TaskInstance → Type 0) (before after : List TaskInstance) (t : TaskInstance)
    → All P (before ++ t ∷ after)
    → P t × All P (before ++ after)
All-middle P [] after t h = h
All-middle P (b ∷ before) after t h =
    let (ht, hs) = All-middle P before after t h.1 in (ht, (h.0, hs))

pub IsSorted-middle :
    (before after : List TaskInstance) (t : TaskInstance)
    → IsSorted less (before ++ t ∷ after)
    → IsSorted less (before ++ after)
IsSorted-middle [] after t h = h.1
IsSorted-middle (b ∷ before) after t h =
    ((All-middle (λ y. less y b ≡ false) before after t h.0).1, IsSorted-middle before after t h.1)

-- In a sorted list no item behind `t` is less than `t`.
pub IsSorted-after :
    (before after : List TaskInstance) (t : TaskInstance)
    → IsSorted less (before ++ t ∷ after)
    → All (λ u. less u t ≡ false) after
IsSorted-after [] after t h = h.0
IsSorted-after (b ∷ before) after t h = IsSorted-after before after t h.1

pub length-middle :
    (before after : List TaskInstance) (t : TaskInstance)
    → length (before ++ t ∷ after) ≡ suc (length (before ++ after))
length-middle [] after t = refl
length-middle (b ∷ before) after t = ap suc (length-middle before after t)

pub All-append_weaken :
    (P Q R : TaskInstance → Type 0) (xs ys : List TaskInstance)
    → ((t : TaskInstance) → P t → R t)
    → ((t : TaskInstance) → Q t → R t)
    → All P xs
    → All Q ys
    → All R (xs ++ ys)
All-append_weaken P Q R [] [] f g hx hy = tt
All-append_weaken P Q R [] (y ∷ ys) f g hx hy =
    (g y hy.0, All-append_weaken P Q R [] ys f g tt hy.1)
All-append_weaken P Q R (x ∷ xs) ys f g hx hy =
    (f x hx.0, All-append_weaken P Q R xs ys f g hx.1 hy)
