-- ===== src/Message/Received.antt =====
-- What is left of a C++ value after it was packed and unpacked again.
use boost_dbus.Common.{◌+◌, ◌≡◌, refl, false, map, foldl, arith, c_str, ◌==◌}
use boost_dbus.Element.{
  byte, string, object_path, signature, Ty, bool, fixed, text, dbus_variant, vector, flat_map, pair,
  pointer, Variant, of_string, of_bool, of_number, Value, default,
}
use boost_dbus.Wire.{Body, end, value, group, ◌⊕◌, head_code, size}
use boost_dbus.Message.Packer.{Packable}
use boost_dbus.Message.Unpacker.{push_back, emplace_entry}
use boost_dbus.Message.Encoding.{encode}

abbrev pub received_variant : Variant → Variant
received_variant (of_string s) = of_string (c_str s)
received_variant (of_bool b) = of_bool b
received_variant (of_number f n) = of_number f n

-- `old` is the object that is unpacked into: a vector is added to, and a map takes the keys that it
-- has not yet.
abbrev pub received : (t : Ty) (old new : Value t) → Value t
received bool old new = new
received (fixed f) old new = new
received (text x) old new = c_str new
received dbus_variant old new = received_variant new
received (vector t) old new = foldl push_back old (map (received t (default t)) new)
received (flat_map t) old new =
    foldl emplace_entry old (map (λ e. (c_str e.0, received t (default t) e.1)) new)
received (pair k v) old new = (received k old.0 new.0, received v old.1 new.1)
received (pointer t) old new = received t old new

pub size-⊕ : (a b : Body) → size (a ⊕ b) ≡ size a + size b
size-⊕ end b = omega arith
size-⊕ (value c d r) b = omega (arith, size-⊕ r b)
size-⊕ (group c s i r) b = omega (arith, size-⊕ r b)

pub head-encode :
    (t : Ty) (p : Packable t) (v : Value t) (b : Body) → (head_code (encode t p v ⊕ b) == 0) ≡ false
unfolding encode
head-encode bool p v b = refl
head-encode (fixed byte) p v b = refl
head-encode (fixed f) p v b = refl
head-encode (text string) p v b = refl
head-encode (text object_path) p v b = refl
head-encode (text signature) p v b = absurd p
head-encode dbus_variant p v b = refl
head-encode (vector t) p v b = refl
head-encode (flat_map t) p v b = refl
head-encode (pair k u) p (x, y) b = refl
head-encode (pointer t) p v b = head-encode t p v b
