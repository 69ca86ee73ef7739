-- ===== src/Translation/ImageGuard/Tests.antt =====
-- The guard of router/src/translation/ollama-native-out.ts on concrete addresses and replies.
use local_llms.Base.{
  true, false, none, some, [], ◌∷◌, Text, codes, ◌≡◌, ◌↔◌, ◌+◌, ◌*◌, refl, arith, All,
}
use local_llms.Translation.ImageGuard.{is_denied, is_denied_groups}
use local_llms.Translation.ImageGuard.Ranges.{IsInOneOf, denied_blocks}
use local_llms.Translation.ImageGuard.Mapped.{is_denied_mapped_iff}
use local_llms.Translation.ImageGuard.Fetch.{
  Net, Connect, done, bytes, replied, base64_of, fetch_image_as_base64,
}
use local_llms.Translation.ImageGuard.Fetch.Guarded.{
  IsGuarded, IsPicture, fetch_image_as_base64-IsGuarded, fetch_image_as_base64-IsPicture,
}

-- Ways to write 127.0.0.1.
mapped_short : is_denied (codes "::ffff:127.0.0.1") 6 ≡ true
mapped_short = refl

mapped_hex : is_denied (codes "::FFFF:7f00:0001") 6 ≡ true
mapped_hex = refl

mapped_long : is_denied (codes "0:0:0:0:0:ffff:127.0.0.1") 6 ≡ true
mapped_long = refl

loopback : is_denied (codes "::1") 6 ≡ true
loopback = refl

private_v4 : is_denied (codes "172.31.0.9") 4 ≡ true
private_v4 = refl

public_v4 : is_denied (codes "93.184.216.34") 4 ≡ false
public_v4 = refl

public_v6 : is_denied (codes "2606:2800:220:1::1") 6 ≡ false
public_v6 = refl

-- The IPv4-translated form is let through where its IPv4 address is.
translated_public : is_denied (codes "::ffff:0:8.8.8.8") 6 ≡ false
translated_public = refl

is_denied_mapped_iff_example :
    (is_denied_groups (0 ∷ 0 ∷ 0 ∷ 0 ∷ 0 ∷ 65535 ∷ 32512 ∷ 1 ∷ []) ≡ true)
    ↔ IsInOneOf denied_blocks (32512 * 65536 + 1)
is_denied_mapped_iff_example = is_denied_mapped_iff 32512 1 (omega arith) (omega arith)

abbrev image_url : Text
image_url = codes "https://a.example/cat"

-- A host with two addresses in the DNS, which answers with a picture in two pieces.
abbrev picture_net : Net
picture_net = record {
  parse_url = λ t. some (record { protocol = codes "https:"; hostname = codes "a.example" });
  is_ip = λ t. 0;
  lookup = λ t. some (
      record { address = codes "93.184.216.34"; family = 4 }
      ∷ record { address = codes "2606:2800:220:1::1"; family = 6 }
      ∷ []);
  fetch = λ c. replied (record {
    status = 200;
    location = none;
    content_type = some (codes "image/png");
    body = some (bytes (1 ∷ 2 ∷ []) (bytes (3 ∷ []) done));
  });
}

fetch_image_as_base64-IsGuarded_example :
    All (IsGuarded picture_net image_url) (fetch_image_as_base64 1 image_url picture_net).0
fetch_image_as_base64-IsGuarded_example = fetch_image_as_base64-IsGuarded 1 image_url picture_net

picture_fetched : (fetch_image_as_base64 1 image_url picture_net).1 ≡ base64_of (1 ∷ 2 ∷ 3 ∷ [])
unfolding fetch_image_as_base64
picture_fetched = refl

fetch_image_as_base64-IsPicture_example :
    (c : Connect) × ((fetch_image_as_base64 1 image_url picture_net).0 ≡ c ∷ [])
    × IsPicture 1 picture_net (1 ∷ 2 ∷ 3 ∷ []) c
fetch_image_as_base64-IsPicture_example =
    fetch_image_as_base64-IsPicture 1 image_url picture_net (1 ∷ 2 ∷ 3 ∷ []) picture_fetched
