-- ===== src/App/Client/Codec.antt =====
-- A client that is written and read again.
use firebase_login.Base.{◌≡◌, refl, [], none, some}
use firebase_login.Base.Text.{text_eq, pos}
use firebase_login.App.Client.{User, to_dictionary, from_decoder, ok, or_else}

-- Reading back what `toDictionary` wrote succeeds and gives the id, the names and the age, with a
-- nil turned into an empty text or 0. The image is not written, and the birth date is written
-- under `birthDay` but read under `birthDate`: both are lost, whatever they were.
pub from_decoder-to_dictionary :
    (u : User)
    → from_decoder (to_dictionary u)
      ≡ ok (record {
        id = some (or_else u.id []);
        name = some (or_else u.name []);
        last_name = some (or_else u.last_name []);
        image = none;
        age = some (or_else u.age (pos 0));
        birth_date = none;
      })
unfolding from_decoder to_dictionary text_eq
from_decoder-to_dictionary u = refl
