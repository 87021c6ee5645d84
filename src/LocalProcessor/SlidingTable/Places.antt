-- ===== src/LocalProcessor/SlidingTable/Places.antt =====
-- The parts of the features of a sliding view: before the first window, the windows, and after it.
use feathub.Prelude.{
  ◌≡◌, true, not, String, List, [], ◌∷◌, Option, none, some, string_eq, ◌==◌, keep, nat_eq, list_eq,
}
use feathub.LocalProcessor.Frame.{Frame}
use feathub.LocalProcessor.SlidingTable.{
  SlidingTransform, SlidingFeature, SlidingWindowDescriptor, Prepared, sliding_window, same_window,
}
use feathub.SlidingWindow.{AggregationFieldDescriptor}

abbrev pub Agg : Type 0
Agg = SlidingWindowDescriptor × AggregationFieldDescriptor

abbrev pub agg_cons : Option Agg → List AggregationFieldDescriptor → List AggregationFieldDescriptor
agg_cons none aggs = aggs
agg_cons (some (d, a)) aggs = a ∷ aggs

abbrev pub HasWindow : SlidingWindowDescriptor → Option Agg → Type 0
HasWindow d none = Unit {0}
HasWindow d (some (d', a)) = same_window d d' ≡ true

abbrev pub first_cons : Option Agg → Option SlidingWindowDescriptor → Option SlidingWindowDescriptor
first_cons none rest = rest
first_cons (some (d, a)) rest = some d

module _ {V : Type 0} where
  -- The window of a feature, and its aggregation.
  abbrev pub window_of : SlidingTransform V → Option Agg
  window_of (sliding_window step_size keys agg) =
      some (record { step_size = step_size; group_by_keys = keys }, agg)
  window_of _ = none

  -- The aggregations of the features that have a window.
  abbrev pub aggs_of : List (SlidingFeature V) → List AggregationFieldDescriptor
  aggs_of [] = []
  aggs_of (f ∷ fs) = agg_cons (window_of f.transform) (aggs_of fs)

  abbrev pub row_cons :
      Option Agg → SlidingFeature V → List (SlidingFeature V) → List (SlidingFeature V)
  row_cons none f fs = f ∷ fs
  row_cons (some a) f fs = fs

  -- The features without a window.
  abbrev pub per_rows : List (SlidingFeature V) → List (SlidingFeature V)
  per_rows [] = []
  per_rows (f ∷ fs) = row_cons (window_of f.transform) f (per_rows fs)

  -- All windows are the same as `d`.
  abbrev pub AllSame : SlidingWindowDescriptor → List (SlidingFeature V) → Type 0
  AllSame d [] = Unit {0}
  AllSame d (f ∷ fs) = HasWindow d (window_of f.transform) × AllSame d fs

  abbrev pub prepared :
      Frame V
      → Option SlidingWindowDescriptor
      → List AggregationFieldDescriptor
      → List (SlidingFeature V)
      → Prepared V
  prepared df d aggs following = record {
    source_df = df;
    sliding_window_descriptor = d;
    agg_field_descriptors = aggs;
    following = following;
  }

  abbrev pub before_cons :
      Option Agg → SlidingFeature V → List (SlidingFeature V) → List (SlidingFeature V)
  before_cons none f fs = f ∷ fs
  before_cons (some a) f fs = []

  abbrev pub after_cons :
      Option Agg → List (SlidingFeature V) → List (SlidingFeature V) → List (SlidingFeature V)
  after_cons none rows rest = rest
  after_cons (some a) rows rest = rows

  -- The features before the first window, that window, and the features without a window after it.
  abbrev pub before : List (SlidingFeature V) → List (SlidingFeature V)
  before [] = []
  before (f ∷ fs) = before_cons (window_of f.transform) f (before fs)

  abbrev pub after : List (SlidingFeature V) → List (SlidingFeature V)
  after [] = []
  after (f ∷ fs) = after_cons (window_of f.transform) (per_rows fs) (after fs)

  abbrev pub first_window : List (SlidingFeature V) → Option SlidingWindowDescriptor
  first_window [] = none
  first_window (f ∷ fs) = first_cons (window_of f.transform) (first_window fs)

  abbrev pub SameAs : Option SlidingWindowDescriptor → List (SlidingFeature V) → Type 0
  SameAs none fs = Unit {0}
  SameAs (some d) fs = AllSame d fs

  -- The features other than the time of the window.
  abbrev pub others : String → List (SlidingFeature V) → List (SlidingFeature V)
  others timestamp_field fs = keep (λ f. not (f.name == timestamp_field)) fs
