-- ===== src/Text/Laws.antt =====
-- Laws of the text operations that the registry's parsers rest on.
use Prim.Native.Char.{Char}
use appstore_gerege_nexus.Prelude.{String, Bool, false, ◌≡◌, refl, inl, inr, Bool-cases}
use appstore_gerege_nexus.Text.{is_space, trim_left, trimmed_cons, trim_right, trim_space}

-- A text that neither begins nor ends with white space, or is empty.
abbrev pub starts_spaced : String → Bool
starts_spaced String.[] = false
starts_spaced (String.◌∷◌ c s) = is_space c

abbrev pub ends_spaced : String → Bool
ends_spaced String.[] = false
ends_spaced (String.◌∷◌ c String.[]) = is_space c
ends_spaced (String.◌∷◌ c (String.◌∷◌ d s)) = ends_spaced (String.◌∷◌ d s)

starts_spaced-trim_left : (s : String) → starts_spaced (trim_left s) ≡ false
unfolding trim_left
starts_spaced-trim_left String.[] = refl
starts_spaced-trim_left (String.◌∷◌ c s) = elim (Bool-cases (is_space c)) [
  | inl sp ↦ rw sp (starts_spaced-trim_left s)
  | inr ns ↦ rw ns ns
]

ends_spaced-trimmed_cons :
    (c : Char) (s : String) → ends_spaced s ≡ false → ends_spaced (trimmed_cons c s) ≡ false
ends_spaced-trimmed_cons c String.[] h = elim (Bool-cases (is_space c)) [
  | inl sp ↦ rw sp
  | inr ns ↦ rw ns ns
]
ends_spaced-trimmed_cons c (String.◌∷◌ d s) h = h

ends_spaced-trim_right : (s : String) → ends_spaced (trim_right s) ≡ false
unfolding trim_right
ends_spaced-trim_right String.[] = refl
ends_spaced-trim_right (String.◌∷◌ c s) =
    ends_spaced-trimmed_cons c (trim_right s) (ends_spaced-trim_right s)

starts_spaced-trimmed_cons :
    (c : Char) (s : String) → is_space c ≡ false → starts_spaced (trimmed_cons c s) ≡ false
starts_spaced-trimmed_cons c String.[] h = rw h h
starts_spaced-trimmed_cons c (String.◌∷◌ d s) h = h

starts_spaced-trim_right :
    (s : String) → starts_spaced s ≡ false → starts_spaced (trim_right s) ≡ false
unfolding trim_right
starts_spaced-trim_right String.[] h = refl
starts_spaced-trim_right (String.◌∷◌ c s) h = starts_spaced-trimmed_cons c (trim_right s) h

-- What strings.TrimSpace leaves has white space at neither end.
pub trim_space_tight :
    (s : String) → (starts_spaced (trim_space s) ≡ false) × (ends_spaced (trim_space s) ≡ false)
unfolding trim_space
trim_space_tight s = (
  starts_spaced-trim_right (trim_left s) (starts_spaced-trim_left s),
  ends_spaced-trim_right (trim_left s),
)

trim_left_fixed : (s : String) → starts_spaced s ≡ false → trim_left s ≡ s
unfolding trim_left
trim_left_fixed String.[] h = refl
trim_left_fixed (String.◌∷◌ c s) h = rw h

trim_right_fixed : (s : String) → ends_spaced s ≡ false → trim_right s ≡ s
unfolding trim_right
trim_right_fixed String.[] h = refl
trim_right_fixed (String.◌∷◌ c String.[]) h = rw h
trim_right_fixed (String.◌∷◌ c (String.◌∷◌ d s)) h =
    rw (trim_right_fixed (String.◌∷◌ d s) h, trimmed_cons)

pub trim_space_fixed :
    (s : String) → starts_spaced s ≡ false → ends_spaced s ≡ false → trim_space s ≡ s
unfolding trim_space
trim_space_fixed s h k = rw (trim_left_fixed s h) (trim_right_fixed s k)
