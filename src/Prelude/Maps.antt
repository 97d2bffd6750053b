-- ===== src/Prelude/Maps.antt =====
-- A Go map with text keys: the value at each key, `none` where the key is missing or its value nil.
use Prim.Native.String.{String}
use mathlib.Core.Option.{Option, none, some}
use ksdns.Prelude.Tests.{if◌then◌else◌}
use text.Mathlib.Text.{◌==◌ as str_eq}

abbrev pub Map {ℓ} : Type ℓ → Type ℓ
Map V = String → Option V

module _ {ℓ} {V : Type ℓ} where
  abbrev pub empty : Map V
  empty k = none

  abbrev pub set : String → V → Map V → Map V
  set k v m j = if str_eq k j then some v else m j

  abbrev pub delete : String → Map V → Map V
  delete k m j = if str_eq k j then none else m j
