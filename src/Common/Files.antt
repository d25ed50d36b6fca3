-- ===== src/Common/Files.antt =====
-- The files that the programs open through `fopen`: a disk that may refuse to open a name.
use Prim.Native.String.{String}
use text.Mathlib.Text.{◌==◌ as str_eq}
use text.Mathlib.TextPositions.{eq_refl}
use text.Mathlib.TextEquality.{eq_iff}
use mathlib.Core.Logic.{◌≢◌}
use native.Mathlib.Omega.{arith}
use mathlib.Core.Path.{◌≡◌}
use mathlib.Core.Bool.{Bool, true, false}
use mathlib.Core.Option.{Option, none, some}
use mathlib.Core.List.{List, []}
use Prim.Native.Nat.{ℕ}
use ciic.Common.Tests.{if◌then◌else◌}

-- What stands under each name, and which names `fopen` opens for reading and for writing.
pub record Disk : Type 0 where
  pub files : String → Option (List ℕ)
  pub readable : String → Bool
  pub writable : String → Bool

-- `fopen(name, "rb")` or `"r"`, then all that `fread` gives; `none` is NULL.
abbrev pub open_read : Disk → String → Option (List ℕ)
open_read d name = if d.readable name then d.files name else none

abbrev pub put_file : Disk → String → List ℕ → Disk
put_file d name bytes = record d { files = λ n. if str_eq name n then some bytes else d.files n }

-- `fopen(name, "wb")`: an empty file, or NULL
abbrev pub open_write : Disk → String → Option Disk
open_write d name = if d.writable name then some (put_file d name []) else none

pub str_eq_self : (s : String) → str_eq s s ≡ true
str_eq_self s = eq_refl s

pub str_eq_ne : (s t : String) → s ≢ t → str_eq s t ≡ false
str_eq_ne s t h = ground (arith, eq_iff s t)

pub put_file_self :
    (d : Disk) (name : String) (bytes : List ℕ) → (put_file d name bytes).files name ≡ some bytes
put_file_self d name bytes = ground (arith, str_eq_self name)

pub put_file_ne :
    (d : Disk) (name other : String) (bytes : List ℕ)
    → name ≢ other
    → (put_file d name bytes).files other ≡ d.files other
put_file_ne d name other bytes h = ground (arith, str_eq_ne name other h)

pub ne_of_str_eq : (s t : String) → str_eq s t ≡ false → s ≢ t
ne_of_str_eq s t h e = ground (arith, eq_iff s t)
