-- ===== src/Fakebgpd/Samples.antt =====
-- Two sessions on one hub: an UPDATE is reflected and then asked for again.
use xk6_bgp.Base.{true, List, [], ◌∷◌, ◌≡◌, refl, insert, nat_eq}
use xk6_bgp.Fakebgpd.{
  hub_step, others, verbatim, begins, ends, HubEvent, joins, records, gathers, asks, writes,
  new_hub, hub_run,
}
use xk6_bgp.Fakebgpd.Streams.{stream}
use xk6_bgp.Fakebgpd.Reflect.{all_writes, owed_all, empty_book, stream-hub_run}

-- The second session asks while the first one is still writing to it.
abbrev story : List HubEvent
story =
    joins 1
    ∷ joins 2
    ∷ records 1 (9 ∷ [])
    ∷ gathers 1 (9 ∷ [])
    ∷ asks 2 65537 true
    ∷ writes 2
    ∷ writes 1
    ∷ writes 2
    ∷ []

stream-hub_run_example : all_writes 2 2 (hub_run new_hub story) ≡ owed_all 2 2 empty_book story
stream-hub_run_example = stream-hub_run 2 2 story

second_is_served :
    all_writes 2 2 (hub_run new_hub story) ≡ begins 65537 ∷ verbatim (9 ∷ []) ∷ ends 65537 ∷ []
unfolding hub_run stream hub_step insert others new_hub
second_is_served = refl

second_is_reflected_to : stream 1 2 (hub_run new_hub story).sent ≡ verbatim (9 ∷ []) ∷ []
unfolding hub_run stream hub_step insert others new_hub
second_is_reflected_to = refl
