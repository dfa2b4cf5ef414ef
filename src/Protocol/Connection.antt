-- ===== src/Protocol/Connection.antt =====
-- src/protocol/codec.c: which peer a connection's first bytes announce.
use kvstore.Common.{◌≡◌, ◌≢◌, ◌↔◌, refl, arith, Bytes, [], ◌∷◌, ◌++◌, str_eq}
use kvstore.Protocol.{need_more, replica, handshake, identify_connection}

-- Once the peer is known or refused, later bytes do not change the answer.
pub identify_connection-append :
    (input more : Bytes)
    → identify_connection input ≢ need_more
    → identify_connection (input ++ more) ≡ identify_connection input
unfolding identify_connection str_eq
identify_connection-append [] more h = absurd (h refl)
identify_connection-append (a ∷ []) more h = ground arith
identify_connection-append (a ∷ b ∷ []) more h = ground arith
identify_connection-append (a ∷ b ∷ c ∷ []) more h = ground arith
identify_connection-append (a ∷ b ∷ c ∷ d ∷ []) more h = ground arith
identify_connection-append (a ∷ b ∷ c ∷ d ∷ e ∷ []) more h = ground arith
identify_connection-append (a ∷ b ∷ c ∷ d ∷ e ∷ f ∷ rest) more h = ground arith

-- A peer is a replica exactly if its input begins with the whole handshake.
pub identify_connection-replica :
    (input : Bytes)
    → (identify_connection input ≡ replica) ↔ ((rest : Bytes) × (input ≡ handshake ++ rest))
unfolding identify_connection str_eq
identify_connection-replica [] = ((λ h. absurd (ground arith)), (λ h. absurd (ground arith)))
identify_connection-replica (a ∷ b ∷ c ∷ d ∷ e ∷ f ∷ rest) =
    ((λ h. (rest, ground arith)), (λ h. ground arith))
identify_connection-replica (a ∷ rest) =
    ((λ h. absurd (ground arith)), (λ h. absurd (ground arith)))
