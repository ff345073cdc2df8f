-- ===== src/Prelude/Text.antt =====
-- Rust's `String` and `str`: the list of code points. Lengths and cuts count bytes of UTF-8.
use Prim.Native.Nat.{ℕ, ◌+◌, ◌-◌, ◌≤◌, ◌<◌}
use Prim.Native.Char.{code}
use Prim.Native.String.{String}
use mathlib.Core.Path.{◌≡◌, refl, ap, sym, ◌∙◌}
use mathlib.Core.List.{List, [], ◌∷◌, ◌++◌, append_assoc, append-nil}
use mathlib.Core.Option.{Option, none, some}
use native.Mathlib.Omega.{arith}
use haentgl.Prelude.Tests.{ltb, ◌==◌, ◌>>=◌, if◌then◌else◌}

-- The code points of a literal.
abbrev pub codes : String → List ℕ
codes String.[] = []
codes (String.◌∷◌ c s) = code c ∷ codes s

-- The bytes that a code point takes in UTF-8.
unfoldable pub utf8_width : ℕ → ℕ
utf8_width c = if ltb c 128 then 1 else if ltb c 2048 then 2 else if ltb c 65536 then 3 else 4

-- `str::len`.
unfoldable pub byte_len : List ℕ → ℕ
byte_len [] = 0
byte_len (c ∷ s) = utf8_width c + byte_len s

abbrev cons_fst : ℕ → Option (List ℕ × List ℕ) → Option (List ℕ × List ℕ)
cons_fst c none = none
cons_fst c (some (p, q)) = some (c ∷ p, q)

-- Cut at a byte offset: `none`, a panic, past the end and inside a character.
unfoldable pub split_at_byte : List ℕ → ℕ → Option (List ℕ × List ℕ)
unfolding utf8_width
split_at_byte [] n = if n == 0 then some ([], []) else none
split_at_byte (c ∷ s) n =
    if n == 0
    then some ([], c ∷ s)
    else if ltb n (utf8_width c)
    then none
    else cons_fst c (split_at_byte s (n - utf8_width c))

-- `&s[start..end]`, which panics (`none`) unless both ends are boundaries in order.
unfoldable pub slice : List ℕ → ℕ → ℕ → Option (List ℕ)
slice s start stop = do front ← split_at_byte s stop; cut ← split_at_byte front.0 start; some cut.1

pub utf8_width_pos : (c : ℕ) → 1 ≤ utf8_width c
unfolding utf8_width
utf8_width_pos c = ground arith

pub utf8_width_ascii : (c : ℕ) → c < 128 → utf8_width c ≡ 1
unfolding utf8_width
utf8_width_ascii c h = ground arith

pub byte_len-append : (p q : List ℕ) → byte_len (p ++ q) ≡ byte_len p + byte_len q
unfolding byte_len
byte_len-append [] q = omega arith
byte_len-append (c ∷ p) q = omega (arith, byte_len-append p q)

split-zero : (q : List ℕ) → split_at_byte q 0 ≡ some ([], q)
unfolding split_at_byte
split-zero [] = refl
split-zero (c ∷ q) = refl

pub split-append : (p q : List ℕ) (n : ℕ) → byte_len p ≡ n → split_at_byte (p ++ q) n ≡ some (p, q)
unfolding byte_len split_at_byte
split-append [] q n h = rw (← h) (split-zero q)
split-append (c ∷ p) q n h =
    ground (arith, utf8_width_pos c, split-append p q (n - utf8_width c) (omega (arith, h)))

-- The middle of a text, cut out at its own offsets.
pub slice-append :
    (p m q : List ℕ) (start stop : ℕ)
    → byte_len p ≡ start
    → start + byte_len m ≡ stop
    → slice (p ++ (m ++ q)) start stop ≡ some m
unfolding slice
slice-append p m q start stop hp hm = rw (
  ← append_assoc p m q,
  split-append (p ++ m) q stop (omega (arith, byte_len-append p m)),
  split-append p m start hp,
)

-- The same at the end of the text.
pub slice-end :
    (p m : List ℕ) (start stop : ℕ)
    → byte_len p ≡ start
    → start + byte_len m ≡ stop
    → slice (p ++ m) start stop ≡ some m
slice-end p m start stop hp hm =
    ap (λ (t : List ℕ). slice (p ++ t) start stop) (sym (append-nil m))
    ∙ slice-append p m [] start stop hp hm
