-- ===== src/Utils/Injective.antt =====
-- The buffer that durian/src/utils.rs hashes for a contract's address.
use durian.Base.{◌≡◌, refl, [], ◌∷◌, ◌++◌, length, arith, Bytes}
use durian.Types.{Address, H256}
use durian.Utils.{address_buffer}

append_cancel :
    (xs ys zs ws : Bytes) → length xs ≡ length ys → xs ++ zs ≡ ys ++ ws → (xs ≡ ys) × (zs ≡ ws)
append_cancel [] [] zs ws h e = (refl, e)
append_cancel [] (y ∷ ys) zs ws h e = absurd (omega arith)
append_cancel (x ∷ xs) [] zs ws h e = absurd (omega arith)
append_cancel (x ∷ xs) (y ∷ ys) zs ws h e = ground (arith, append_cancel xs ys zs ws)

-- Two contracts of different senders, salts or code hashes are hashed from different buffers, so
-- that their addresses collide only where the hash function collides.
pub address_buffer-injective :
    (sender sender' : Address) (salt salt' code_hash code_hash' : H256)
    → length sender ≡ length sender'
    → length salt ≡ length salt'
    → address_buffer sender salt code_hash ≡ address_buffer sender' salt' code_hash'
    → (sender ≡ sender') × (salt ≡ salt') × (code_hash ≡ code_hash')
unfolding address_buffer
address_buffer-injective sender sender' salt salt' code_hash code_hash' hs ht e = ground (
  arith,
  append_cancel sender sender' (salt ++ code_hash) (salt' ++ code_hash'),
  append_cancel salt salt' code_hash code_hash',
)
