-- ===== src/Sockets/Threads/Overlay.antt =====
-- What the clients of server_handler, shared-common/common/sockets.c, get back.
use threaders.Base.{
  ℕ, zero, suc, ◌-◌, ◌<◌, ◌≡◌, refl, some, List, [], ◌∷◌, ◌++◌, arith, sym, ap, ◌∙◌, length, drop,
  length-append,
}
use mathlib.Core.List.{append_assoc}
use threaders.Wire.Bytes.{Bytes, cstring}
use threaders.Wire.Message.Fill.{length-drop}
use threaders.Wire.Message.Paths.{IsText, cstring-text}
use threaders.Sockets.{zeros}
use threaders.Sockets.Threads.{
  buffer_size, client_message, Event, received, echoed, then_written, echo, server_handler,
}

-- A message that came in is sent back before the next one comes.
abbrev pub in_turn : List (ℕ × Bytes) → List Event
in_turn [] = []
in_turn ((sock, message) ∷ rest) = received sock message ∷ echoed sock ∷ in_turn rest

-- A message over a text: what the text has behind it stays.
abbrev pub overlay : Bytes → Bytes → Bytes
overlay message text = message ++ drop (length message) text

abbrev pub overlays : Bytes → List (ℕ × Bytes) → List (ℕ × Bytes)
overlays text [] = []
overlays text ((sock, message) ∷ rest) =
    (sock, overlay message text) ∷ overlays (overlay message text) rest

abbrev pub last_text : Bytes → List (ℕ × Bytes) → Bytes
last_text text [] = text
last_text text ((sock, message) ∷ rest) = last_text (overlay message text) rest

-- Messages without a zero byte, which leave room for one in the buffer.
abbrev pub Texts : List (ℕ × Bytes) → Type 0
Texts [] = Unit {0}
Texts ((sock, message) ∷ rest) = IsText message × (length message < buffer_size) × Texts rest

-- A buffer that holds a text, with zeros behind it.
abbrev pub filled_with : ℕ → Bytes → Bytes
filled_with size text = text ++ zeros (size - length text)

zeros-drop : (n k : ℕ) → drop n (zeros k) ≡ zeros (k - n)
zeros-drop zero k = let e : k ≡ k - 0 = omega arith in ap zeros e
zeros-drop (suc n) zero = let e : 0 ≡ 0 - suc n = omega arith in ap zeros e
zeros-drop (suc n) (suc k) =
    let e : k - n ≡ suc k - suc n = omega arith in zeros-drop n k ∙ ap zeros e

drop-filled :
    (n k : ℕ) (text : Bytes)
    → drop n (text ++ zeros k) ≡ drop n text ++ zeros (k - (n - length text))
drop-filled zero k text =
    let e : k ≡ k - (0 - length text) = omega arith in ap (λ j. text ++ zeros j) e
drop-filled (suc n) k [] =
    let e : k - suc n ≡ k - (suc n - 0) = omega arith in zeros-drop (suc n) k ∙ ap zeros e
drop-filled (suc n) k (b ∷ text) =
    let e : k - (n - length text) ≡ k - (suc n - suc (length text)) = omega arith in
    drop-filled n k text ∙ ap (λ j. drop n text ++ zeros j) e

drop-IsText : (n : ℕ) (text : Bytes) → IsText text → IsText (drop n text)
drop-IsText zero text h = h
drop-IsText (suc n) [] h = tt
drop-IsText (suc n) (b ∷ text) h = drop-IsText n text h.1

append-IsText : (s t : Bytes) → IsText s → IsText t → IsText (s ++ t)
append-IsText [] t h k = k
append-IsText (b ∷ s) t h k = (h.0, append-IsText s t h.1 k)

length-overlay_lt :
    (size : ℕ) (message text : Bytes)
    → length message < size
    → length text < size
    → length (overlay message text) < size
length-overlay_lt size message text h k =
    omega
      (arith, length-append message (drop (length message) text), length-drop (length message) text)

-- A message written over a buffer.
received-overlay :
    (size : ℕ) (message text : Bytes)
    → length message < size
    → length text < size
    → message ++ drop (length message) (filled_with size text)
      ≡ filled_with size (overlay message text)
received-overlay size message text h k =
    let n = length message in
    let behind = drop n text in
    let count : size - length text - (n - length text) ≡ size - length (overlay message text) =
      omega (arith, length-append message behind, length-drop n text) in
    ap (λ t. message ++ t) (drop-filled n (size - length text) text)
    ∙ ap (λ j. message ++ (behind ++ zeros j)) count
    ∙ sym (append_assoc message behind (zeros (size - length (overlay message text))))

cstring-filled :
    (size : ℕ) (text : Bytes)
    → IsText text
    → length text < size
    → cstring (filled_with size text) ≡ some text
cstring-filled size text t h =
    let one_more : size - length text ≡ suc (size - length text - 1) = omega arith in
    ap (λ j. cstring (text ++ zeros j)) one_more
    ∙ cstring-text text (zeros (size - length text - 1)) t

in_turn-overlays :
    (size : ℕ) (text : Bytes) (messages : List (ℕ × Bytes))
    → size ≡ buffer_size
    → IsText text
    → length text < size
    → Texts messages
    → server_handler (in_turn messages) (filled_with size text)
      ≡ some (filled_with size (last_text text messages), overlays text messages)
unfolding server_handler
in_turn-overlays size text [] e t l h = refl
in_turn-overlays size text ((sock, message) ∷ rest) e t l h =
    let now = overlay message text in
    let short : length message < size = omega (arith, e, h.1) in
    let now_text : IsText now =
      append-IsText message (drop (length message) text) h.0
        (drop-IsText (length message) text t) in
    let now_short : length now < size = length-overlay_lt size message text short l in
    let rest' = in_turn-overlays size now rest e now_text now_short h.2 in
    ap (λ b. echo sock (cstring b) (server_handler (in_turn rest) b))
      (received-overlay size message text short l)
    ∙ ap (λ o. echo sock o (server_handler (in_turn rest) (filled_with size now)))
        (cstring-filled size now now_text now_short)
    ∙ ap (then_written sock now) rest'

-- Where each message is sent back before the next one comes, and messages of all clients have no zero byte and fewer
-- than 2000 bytes: each client gets its message back, and behind it what a longer message before it, of whatever client,
-- had there. The buffer ends with the text that was sent last, and zeros.
pub server_handler-overlays :
    (messages : List (ℕ × Bytes))
    → Texts messages
    → server_handler (in_turn messages) client_message
      ≡ some (filled_with buffer_size (last_text [] messages), overlays [] messages)
server_handler-overlays messages h =
    in_turn-overlays buffer_size [] messages refl tt (omega arith) h
