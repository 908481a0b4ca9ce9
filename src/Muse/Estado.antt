-- ===== src/Muse/Estado.antt =====
-- estaOcupada and estadoFrames of muse/src/muse.c. The second of them lacks its last brace before a comment that goes on
-- to the end of the file.
use threaders.Base.{
  ℕ, suc, ◌≡◌, refl, Bool, true, false, Option, List, [], ◌∷◌, get_elem?, ap, ◌∙◌, if◌then◌else◌,
}
use threaders.Muse.Frames.{count}

-- `none` for a frame behind the vector.
abbrev pub esta_ocupada : List Bool → ℕ → Option Bool
esta_ocupada frames frame = get_elem? frames frame

abbrev pub printed_at : Bool → ℕ → List ℕ → List ℕ
printed_at libre i rest = if libre then i ∷ rest else rest

-- The frames from the `i`th on that a loop prints, as its test finds them free.
pub posiciones_libres : ℕ → List Bool → List ℕ
posiciones_libres i [] = []
posiciones_libres i (libre ∷ frames) = printed_at libre i (posiciones_libres (suc i) frames)

-- The first loop prints the free frames and sets them to false, the second prints those that are still free.
abbrev pub ocupados : List Bool → List Bool
ocupados [] = []
ocupados (libre ∷ frames) = (if libre then false else libre) ∷ ocupados frames

abbrev pub estado_frames : List Bool → List Bool × List ℕ × List ℕ
estado_frames frames =
    (ocupados frames, posiciones_libres 0 frames, posiciones_libres 0 (ocupados frames))

no_change : (libre : Bool) → (if libre then false else libre) ≡ false
no_change true = refl
no_change false = refl

posiciones_libres-ocupados :
    (i : ℕ) (frames : List Bool) → posiciones_libres i (ocupados frames) ≡ []
unfolding posiciones_libres
posiciones_libres-ocupados i [] = refl
posiciones_libres-ocupados i (libre ∷ frames) =
    ap (λ b. printed_at b i (posiciones_libres (suc i) (ocupados frames))) (no_change libre)
    ∙ posiciones_libres-ocupados (suc i) frames

count-ocupados : (frames : List Bool) → count (ocupados frames) ≡ 0
count-ocupados [] = refl
count-ocupados (libre ∷ frames) =
    ap (λ b. count (b ∷ ocupados frames)) (no_change libre) ∙ count-ocupados frames

-- estadoFrames takes every free frame, without a page for it, and its second loop prints nothing.
pub estado_frames-taken :
    (frames : List Bool) → (count (estado_frames frames).0 ≡ 0) × ((estado_frames frames).2 ≡ [])
estado_frames-taken frames = (count-ocupados frames, posiciones_libres-ocupados 0 frames)
