-- ===== src/Protocol/Constants/Tests.antt =====
-- Command codes on concrete bytes.
use haentgl.Prelude.{ℕ, ◌≡◌, some, refl, List}
use haentgl.Prelude.Arms.{first_arm}
use haentgl.Protocol.Constants.{query, from_u8, com_name, from_u8-named}

three_is_query : from_u8 3 ≡ some query
unfolding from_u8 first_arm
three_is_query = refl

from_u8-named_example : (name : List ℕ) × (com_name 3 ≡ some name)
from_u8-named_example = from_u8-named 3 query three_is_query
