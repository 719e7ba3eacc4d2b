-- ===== src/Common.antt =====
-- What every module shares: the libraries' names, Boolean tests, words of fixed width, memory.
mod Tests
mod Words
mod Memory
mod Copy
mod Lists
mod Int
mod Maps
mod Order
mod Runs
pub use Tests.*
pub use Words.*
unfoldable pub use Memory.{set_at, put16, put_loop, put32, put64, get16, get_loop, get32, get64}
pub use Memory.{Buffer, Pointer, Zeros, Holds16, Holds32, Holds64, get16_lem, get32_lem, get64_lem}
pub use Memory.{set_at-below, put16-below, put32-below, put64-below, put32-Holds32, get32-below}
pub use Memory.{get16_ext, get32_ext, get64_ext}
unfoldable pub use Copy.{read_bytes, write_bytes}
pub use Copy.{
  write_bytes-below, read_bytes-write_bytes, length-read_bytes, read_bytes_ext, read_bytes_inj,
}
pub use Lists.*
pub use Int.*
pub use Maps.*
pub use Order.*
pub use Runs.*
pub use Prim.Native.Nat.{ℕ, zero, suc, ◌+◌, ◌-◌, ◌*◌, ◌/◌, ◌%◌, ◌^◌, ◌≤◌, ◌<◌}
pub use Prim.Native.Nat.{bit_and, bit_or, bit_xor}
pub use mathlib.Core.Path.{◌≡◌, refl, sym, ap, subst, ap₂, ◌∙◌, fun_ext}
pub use mathlib.Core.Logic.{◌≢◌, ◌↔◌, ◌⊎◌, inl, inr}
pub use mathlib.Core.Bool.{Bool, true, false, not, ◌&&◌, ◌||◌}
pub use mathlib.Core.Option.{Option, none, some}
pub use mathlib.Core.List.{List, [], ◌∷◌, ◌++◌, map}
pub use native.Mathlib.Omega.{arith}
