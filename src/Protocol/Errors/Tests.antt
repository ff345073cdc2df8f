-- ===== src/Protocol/Errors/Tests.antt =====
-- Error numbers on concrete inputs.
use haentgl.Prelude.{◌≡◌, ◌≤◌, ◌<◌, ◌⊎◌, some, none}
use haentgl.Protocol.Errors.{from_code-code}
use haentgl.Protocol.Errors.Codes.{ErrorKind, from_code, code}

from_code-code_example :
    ((1000 ≤ 1045)
      × (1045 < 1886)
      × ((k : ErrorKind) × (from_code 1045 ≡ some k) × (code k ≡ 1045)))
    ⊎ (((1045 < 1000) ⊎ (1886 ≤ 1045)) × (from_code 1045 ≡ none))
from_code-code_example = from_code-code 1045
