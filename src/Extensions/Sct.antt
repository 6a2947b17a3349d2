-- ===== src/Extensions/Sct.antt =====
-- The parsers of src/extensions/sct.rs.
use x509_parser.Der.{Der}
use x509_parser.Error.{BerError}
use x509_parser.Extensions.{DigitallySigned, SignedCertificateTimestamp}
use x509_parser.Prelude.{Bytes, List}
use x509_parser.Result.{Parser, ok, ◌>>=◌}

module _ (d : Der) where
  parse_log_id : Parser BerError Bytes
  parse_log_id i = do (i1, key_id) ← d.take 32 i; ok (i1, key_id.bytes)

  parse_ct_extensions : Parser BerError Bytes
  parse_ct_extensions i = do
    (i1, ext_len) ← d.be_u16 i
    (i2, ext_data) ← d.take ext_len i1
    ok (i2, ext_data.bytes)

  parse_digitally_signed : Parser BerError DigitallySigned
  parse_digitally_signed i = do
    (i1, hash_alg_id) ← d.be_u8 i
    (i2, sign_alg_id) ← d.be_u8 i1
    (i3, content) ← d.length_data d.be_u16 i2
    ok (
      i3,
      record { hash_alg_id = hash_alg_id; sign_alg_id = sign_alg_id; content = content.bytes },
    )

  unfoldable pub parse_sct_content : Parser BerError SignedCertificateTimestamp
  unfolding parse_log_id parse_ct_extensions parse_digitally_signed
  parse_sct_content i = do
    (i1, version) ← d.be_u8 i
    (i2, id) ← parse_log_id i1
    (i3, timestamp) ← d.be_u64 i2
    (i4, extensions) ← parse_ct_extensions i3
    (i5, signature) ← parse_digitally_signed i4
    ok (
      i5,
      record {
        version = version;
        id = id;
        timestamp = timestamp;
        extensions = extensions;
        signature = signature;
      },
    )

  unfoldable pub parse_sct : Parser BerError SignedCertificateTimestamp
  parse_sct = d.map_parser SignedCertificateTimestamp (d.length_data d.be_u16) parse_sct_content

  unfoldable pub parse_sct_list : Parser BerError (List SignedCertificateTimestamp)
  parse_sct_list i = do
    (rem, b) ← d.octets_from_der i
    (b1, sct_len) ← d.be_u16 b
    (_, sct_list) ←
        d.map_parser (List SignedCertificateTimestamp) (d.take sct_len)
          (d.many1 BerError SignedCertificateTimestamp
            (d.complete BerError SignedCertificateTimestamp parse_sct))
          b1
    ok (rem, sct_list)
