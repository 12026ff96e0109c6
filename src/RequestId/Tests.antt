-- ===== src/RequestId/Tests.antt =====
-- Request ids on concrete headers.
use mizan_connect.Base.{codes, ◌≡◌, refl, true}
use mizan_connect.RequestId.{is_safe_id_char, is_usable}

drawn : is_usable (codes "4f0c-11") ≡ true
unfolding is_safe_id_char
drawn = refl
