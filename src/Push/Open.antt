-- ===== src/Push/Open.antt =====
-- The first half of `Client::processPush` (src/client.cpp): the key, the salt and the meta data of a push.
use zway_lib.Base.{Bool, true, false, ◌&&◌, Option, none, some, if◌then◌else◌}
use zway_lib.Base.Text.{codes}
use zway_lib.Buffer.{MemoryBuffer, bytes}
use zway_lib.Crypto.Aes.{Nettle}
use zway_lib.Push.{Rsa, message_context}
use zway_lib.Resources.{crypt_in_place}
use zway_lib.Ubj.Format.{Library}
use zway_lib.Ubj.Format.Reader.{read}
use zway_lib.Ubj.Object.{has_field, at_key}
use zway_lib.Ubj.Value.{Runtime, Value, Object, null, buffer, to_object}

-- `ignored`: a field is missing. `faulted`: the key is no buffer, and the source follows a null pointer.
-- `failed`: a failure is posted.
pub data Opened : Type 0 where
  ignored : Opened
  faulted : Opened
  failed : Opened
  opened : MemoryBuffer → MemoryBuffer → Object → Opened

module _ (rt : Runtime) (lib : Library) (N : Nettle) (fresh : N.Context) (R : Rsa)
    (private_key : Object) where
  abbrev parsed : MemoryBuffer → MemoryBuffer → Option Value → Opened
  parsed key salt none = failed
  parsed key salt (some v) = opened key salt (to_object v)

  abbrev decrypted : MemoryBuffer → MemoryBuffer → Bool × N.Context × MemoryBuffer → Opened
  decrypted key salt (false, c, b) = failed
  decrypted key salt (true, c, b) = parsed key salt (read rt lib null (bytes b))

  abbrev with_meta : MemoryBuffer → MemoryBuffer → Option MemoryBuffer → Opened
  with_meta key salt none = failed
  with_meta key salt (some b) =
      decrypted key salt (crypt_in_place N rt.malloc (message_context N fresh key salt) b b.m_size)

  abbrev with_salt : Object → MemoryBuffer → Option MemoryBuffer → Opened
  with_salt request key none = failed
  with_salt request key (some salt) = with_meta key salt (buffer (at_key (codes "meta") request))

  abbrev with_key : Object → Option MemoryBuffer → Opened
  with_key request none = failed
  with_key request (some key) = with_salt request key (buffer (at_key (codes "salt") request))

  abbrev with_encrypted : Object → Option MemoryBuffer → Opened
  with_encrypted request none = faulted
  with_encrypted request (some e) = with_key request (R.decrypt private_key e)

  unfoldable pub open_push : Object → Opened
  open_push request =
      if has_field (codes "key") request
        && (has_field (codes "salt") request && has_field (codes "meta") request)
      then with_encrypted request (buffer (at_key (codes "key") request))
      else ignored
