-- ===== src/Examples/Heroes.antt =====
-- The names of the heroes, read and written.
use rust_game_harry_potter.Base.{◌≡◌, ◌↔◌, ok}
use rust_game_harry_potter.Engine.Heroes.{HeroId, as_str, from_str, from_str-as_str}

from_str-as_str_example : (from_str "ron" ≡ ok HeroId.ron) ↔ ("ron" ≡ as_str HeroId.ron)
from_str-as_str_example = from_str-as_str "ron" HeroId.ron
