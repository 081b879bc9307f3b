-- ===== src/Effects/Zones.antt =====
-- Resources and zones (crates/game-domain/src/effects.rs).
use rust_game_harry_potter.Base.{Bool, true, false, List, [], ◌∷◌, Eq}

pub data EffectResource : Type 0 where
  attack control health influence : EffectResource

unfoldable pub EffectResource-discrete : Discrete EffectResource
EffectResource-discrete = hlevel

instance abbrev pub resource_eq : Eq EffectResource
resource_eq = record { dec = EffectResource-discrete }

pub data EffectZone : Type 0 where
  active_location active_villains dark_arts_deck dark_arts_discard : EffectZone
  hero_discard_pile hero_draw_pile hero_hand hero_play_area heroes : EffectZone
  hogwarts_deck location_deck location_discard market : EffectZone
  villain_deck villain_discard : EffectZone

unfoldable pub EffectZone-discrete : Discrete EffectZone
EffectZone-discrete = hlevel

instance abbrev pub zone_eq : Eq EffectZone
zone_eq = record { dec = EffectZone-discrete }

-- The keys of a `BTreeMap<EffectZone, _>` in their order, that of the declaration.
abbrev pub all_zones : List EffectZone
all_zones =
    active_location ∷ active_villains ∷ dark_arts_deck ∷ dark_arts_discard ∷ hero_discard_pile
    ∷ hero_draw_pile ∷ hero_hand ∷ hero_play_area ∷ heroes ∷ hogwarts_deck ∷ location_deck
    ∷ location_discard ∷ market ∷ villain_deck ∷ villain_discard ∷ []

abbrev pub is_card_zone : EffectZone → Bool
is_card_zone active_villains = true
is_card_zone dark_arts_deck = true
is_card_zone dark_arts_discard = true
is_card_zone hero_discard_pile = true
is_card_zone hero_draw_pile = true
is_card_zone hero_hand = true
is_card_zone hero_play_area = true
is_card_zone hogwarts_deck = true
is_card_zone market = true
is_card_zone villain_deck = true
is_card_zone villain_discard = true
is_card_zone _ = false

abbrev pub supports_resource : EffectZone → EffectResource → Bool
supports_resource heroes attack = true
supports_resource heroes health = true
supports_resource heroes influence = true
supports_resource active_villains health = true
supports_resource villain_deck health = true
supports_resource villain_discard health = true
supports_resource active_location control = true
supports_resource location_deck control = true
supports_resource location_discard control = true
supports_resource _ _ = false
