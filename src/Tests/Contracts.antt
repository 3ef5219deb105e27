-- ===== src/Tests/Contracts.antt =====
-- Runs of the contract.
use diep_lab.Base.{String, string_eq, ◌≡◌, refl}
use diep_lab.Base.Result.{ok}
use diep_lab.Contracts.Validity.{IsValid}
use diep_lab.Contracts.Decode.{from_dict, to_dict}
use diep_lab.Contracts.Accepted.{from_dict-IsValid, from_dict-to_dict}
use diep_lab.Tests.Samples.{fixed_point, parser, payload}
use diep_lab.Tests.Runs.{decoded}
use diep_lab.Tests.Program.{program}

from_dict-payload : from_dict parser "c1" payload ≡ ok decoded
unfolding program
from_dict-payload = refl

from_dict-IsValid_example : IsValid parser decoded
from_dict-IsValid_example = from_dict-IsValid parser "c1" payload decoded from_dict-payload

pub decoded-IsValid : IsValid parser decoded
decoded-IsValid = from_dict-IsValid parser "c1" payload decoded from_dict-payload

from_dict-to_dict_example : from_dict parser "other" (to_dict decoded) ≡ ok decoded
from_dict-to_dict_example = from_dict-to_dict parser "other" decoded decoded-IsValid

abbrev commands : String
commands = "commands"
