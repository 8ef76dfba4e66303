-- ===== src/Adapters/Gateway.antt =====
-- `Netadapter::getIpv4DefaultGateway` of hbm/communication/netadapter.cpp, the variant that is not for
-- Windows. The loop is on fuel, and `none` means that it ran out.
use Prim.Native.Nat.{bit_and}
use devscan.Base.{
  ℕ, zero, suc, ◌≡◌, refl, ◌==◌, Bool, true, false, not, ◌&&◌, Option, none, some, List, [], ◌∷◌,
  if◌then◌else◌,
}
use devscan.Base.Text.{Text, codes}
use devscan.Base.Int.{ℤ, pos, minus_one, is_neg}

-- The variables that a line of the routing table is read into, as far as they are looked at.
pub record Route : Type 0 where
  pub destination : ℕ
  pub gateway : ℕ
  pub flags : ℕ

-- `/proc/net/route`: what `fscanf` returns for a line, the variables behind it, which stay as they were
-- where nothing was converted, and whether the end of the file was met.
pub record RouteFile : Type 1 where
  pub File : Type 0
  pub fopen : Option File
  pub skip_line : File → ℤ × File
  pub fscanf : Route → File → ℤ × Route × Bool × File
  pub inet_ntoa : ℕ → Text

abbrev pub no_gateway : Text
no_gateway = codes "0.0.0.0"

abbrev is_eleven : ℤ → Bool
is_eleven (pos n) = n == 11
is_eleven _ = false

-- A default route that is up and has a gateway.
abbrev pub is_default : Route → Bool
is_default route =
    not (bit_and route.flags 2 == 0) && (not (bit_and route.flags 1 == 0) && route.destination == 0)

module _ (proc : RouteFile) where
  -- `while (1)`; the variables are not set before the first line is read.
  unfoldable pub route_loop : ℕ → Route → proc.File → Option Text
  route_loop zero route fp = none
  route_loop (suc fuel) route fp =
      let (result, next, eof, fp') = proc.fscanf route fp in
      let later = route_loop fuel next fp' in
      if not (is_eleven result) && (is_neg result && eof)
      then some no_gateway
      else (if is_default next then some (proc.inet_ntoa next.gateway) else later)

  abbrev from_first_line : ℕ → Route → ℤ × proc.File → Option Text
  from_first_line fuel route (result, fp) =
      if is_neg result then some no_gateway else route_loop fuel route fp

  unfoldable pub get_ipv4_default_gateway : ℕ → Route → Option Text
  unfolding route_loop
  get_ipv4_default_gateway fuel route = elim proc.fopen [
    | none ↦ some no_gateway
    | some fp ↦ from_first_line fuel route (proc.skip_line fp)
  ]

  -- The file reads as these routes, line by line, and then ends. The end of the file may be met with a
  -- line already, as it is with the last one.
  abbrev pub Reads : List Route → proc.File → Type 0
  Reads [] fp =
      (route : Route)
      → (before : Route) × (fp' : proc.File) × (proc.fscanf route fp
          ≡ (minus_one, before, true, fp'))
  Reads (next ∷ rest) fp =
      (eof : Bool) × (fp' : proc.File) × ((route : Route)
        → proc.fscanf route fp ≡ (pos 11, next, eof, fp'))
      × Reads rest fp'

  -- The gateway of the first default route.
  abbrev pub first_gateway : List Route → Text
  first_gateway [] = no_gateway
  first_gateway (route ∷ rest) =
      if is_default route then proc.inet_ntoa route.gateway else first_gateway rest

  -- Where a line can not be read, so that `fscanf` returns 0 again and again, and the variables hold no
  -- default route, the loop never ends: it returns on no fuel.
  route_loop-stuck :
      (fuel : ℕ) (route : Route) (fp : proc.File)
      → proc.fscanf route fp ≡ (pos 0, route, false, fp)
      → is_default route ≡ false
      → route_loop fuel route fp ≡ none
  unfolding route_loop
  route_loop-stuck zero route fp e d = refl
  route_loop-stuck (suc fuel) route fp e d =
      rw (route_loop, e, d) (route_loop-stuck fuel route fp e d)
