-- ===== src/Materialization/Executed.antt =====
-- What the execution of a group does.
use feathub.Prelude.{◌≡◌, refl, ap, List, [], ◌∷◌, ◌++◌, Option, ◌⊎◌, inl, inr}
use feathub.Errors.{Error, Result, ok, err}
use feathub.Materialization.{
  MaterializationDescriptor, Outcome, materialize_one, materialize_features, go_on, execute,
  cleared,
}

module _ {Source Table Sink Date Span S F : Type 0} (resolve : Source → S → S × Result Table)
    (read : Table → Option Date → Option Date → S → Result F)
    (write : Table → F → Sink → S → Outcome S) where
  -- From one state to another by the operations in order, each of which returned.
  pub data Steps : List (MaterializationDescriptor Source Sink Date Span) → S → S → Type 0 where
    done : (s : S) → Steps [] s s
    step :
        (d : MaterializationDescriptor Source Sink Date Span)
        (ds : List (MaterializationDescriptor Source Sink Date Span)) (s t u : S)
        → materialize_one resolve read write d s ≡ (t, ok tt)
        → Steps ds t u
        → Steps (d ∷ ds) s u

  -- The operations in order up to one that raised.
  pub record Stopped (ops : List (MaterializationDescriptor Source Sink Date Span)) (s t : S)
      (raised : Error) : Type 0 where
    pub before : List (MaterializationDescriptor Source Sink Date Span)
    pub failed : MaterializationDescriptor Source Sink Date Span
    pub after : List (MaterializationDescriptor Source Sink Date Span)
    pub middle : S
    pub parts : ops ≡ before ++ failed ∷ after
    pub carried_out : Steps before s middle
    pub raises : materialize_one resolve read write failed middle ≡ (t, err raised)

  -- What a job's outcome says.
  abbrev pub Explained :
      List (MaterializationDescriptor Source Sink Date Span) → S → Outcome S → Type 0
  Explained ops s (t, ok u) = Steps ops s t
  Explained ops s (t, err raised) = Stopped ops s t raised

  materialize_features-Explained :
      (ops : List (MaterializationDescriptor Source Sink Date Span)) (s : S)
      → Explained ops s (materialize_features resolve read write ops s)
  unfolding materialize_features
  materialize_features-Explained [] s = done s
  materialize_features-Explained (d ∷ ds) s =
      go (materialize_one resolve read write d s) refl (λ t. materialize_features-Explained ds t)
    where
      later :
          (t : S)
          → materialize_one resolve read write d s ≡ (t, ok tt)
          → (o : Outcome S) → Explained ds t o
          → Explained (d ∷ ds) s o
      later t h (u, ok w) k = step d ds s t u h k
      later t h (u, err raised) k = record {
        before = d ∷ k.before;
        failed = k.failed;
        after = k.after;
        middle = k.middle;
        parts = ap (λ xs. d ∷ xs) k.parts;
        carried_out = step d k.before s t k.middle h k.carried_out;
        raises = k.raises;
      }

      go :
          (o : Outcome S)
          → materialize_one resolve read write d s ≡ o
          → ((t : S) → Explained ds t (materialize_features resolve read write ds t))
          → Explained (d ∷ ds) s (go_on (materialize_features resolve read write ds) o)
      go (t, ok u) h rest = later t h (materialize_features resolve read write ds t) (rest t)
      go (t, err raised) h rest = record {
        before = [];
        failed = d;
        after = ds;
        middle = s;
        parts = refl;
        carried_out = done s;
        raises = h;
      }

  -- What a call of `execute` leaves: no operation after success, all after an exception.
  abbrev pub Left :
      List (MaterializationDescriptor Source Sink Date Span)
      → S
      → List (MaterializationDescriptor Source Sink Date Span) × Outcome S
      → Type 0
  Left ops s (left, (t, ok u)) = (left ≡ []) × Steps ops s t
  Left ops s (left, (t, err raised)) =
      (left ≡ ops) × (((ops ≡ []) × (t ≡ s)) ⊎ Stopped ops s t raised)

  -- If execute returns, all operations of the group have been carried out in the order in which they
  -- were added, and the group is empty. If it raises an exception, the group has its operations still,
  -- and it was empty, or the operations before one that raised the exception have been carried out.
  pub execute-Left :
      (ops : List (MaterializationDescriptor Source Sink Date Span)) (s : S)
      → Left ops s (execute (materialize_features resolve read write) ops s)
  unfolding execute
  execute-Left [] s = (refl, inl (refl, refl))
  execute-Left (d ∷ ds) s =
      go (materialize_features resolve read write (d ∷ ds) s)
        (materialize_features-Explained (d ∷ ds) s)
    where
      go : (o : Outcome S) → Explained (d ∷ ds) s o → Left (d ∷ ds) s (cleared (d ∷ ds) o)
      go (t, ok u) k = (refl, k)
      go (t, err raised) k = (refl, inr k)
