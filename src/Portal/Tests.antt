-- ===== src/Portal/Tests.antt =====
-- The name of one label, asked for an IPv4 address.
use esp32_streamline.Prelude.{refl, [], ◌∷◌, ◌++◌, List, ℕ}
use esp32_streamline.Portal.{dns_reply}
use esp32_streamline.Portal.Replies.{IsReply, dns_reply-IsReply}

abbrev query : List ℕ
query = (18 ∷ 52 ∷ 1 ∷ 0 ∷ 0 ∷ 1 ∷ 0 ∷ 0 ∷ 0 ∷ 0 ∷ 0 ∷ 0 ∷ []) ++ (1 ∷ 97 ∷ 0 ∷ 0 ∷ 1 ∷ 0 ∷ 1 ∷ [])

abbrev address : List ℕ
address = 192 ∷ 168 ∷ 4 ∷ 1 ∷ []

abbrev response : List ℕ
response =
    (18 ∷ 52 ∷ 133 ∷ 0 ∷ 0 ∷ 1 ∷ 0 ∷ 1 ∷ 0 ∷ 0 ∷ 0 ∷ 0 ∷ [])
    ++ (1 ∷ 97 ∷ 0 ∷ 0 ∷ 1 ∷ 0 ∷ 1 ∷ [])
    ++ (192 ∷ 12 ∷ 0 ∷ 1 ∷ 0 ∷ 1 ∷ 0 ∷ 0 ∷ 0 ∷ 60 ∷ 0 ∷ 4 ∷ 192 ∷ 168 ∷ 4 ∷ 1 ∷ [])

dns_reply-IsReply_example : IsReply query 512 response
unfolding dns_reply
dns_reply-IsReply_example = dns_reply-IsReply address refl query 512 refl
