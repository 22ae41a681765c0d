-- ===== src/Clone/Subnets.antt =====
-- The networks of the clone's AmneziaWG inbounds.
use angry_box.Prelude.{◌≡◌, String, true, false, List, [], ◌∷◌, ◌++◌, map, any, ◌=s◌, if◌then◌else◌}
use angry_box.Model.Panel.{NodeInbound}
use angry_box.Address.{awg_server_prefix, is_awg}

-- No AmneziaWG inbound has its address in a network of `taken`, or of an inbound before it.
abbrev pub Separate : List String → List NodeInbound → Type 0
Separate taken [] = Unit
Separate taken (ib ∷ ibs) =
    ((is_awg ib ≡ true)
      → any (λ p. awg_server_prefix ib.awg_server_address =s p) (map awg_server_prefix taken)
        ≡ false)
    × Separate (if is_awg ib then taken ++ ib.awg_server_address ∷ [] else taken) ibs
