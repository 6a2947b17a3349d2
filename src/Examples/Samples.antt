-- ===== src/Examples/Samples.antt =====
-- Concrete certificates, lists and extensions.
use x509_parser.Asn1.{Oid}
use x509_parser.Certificate.{TbsCertificate, X509Certificate}
use x509_parser.Examples.{bits_of, child, id_ce}
use x509_parser.Extensions.{X509Extension, basic_constraints, crl_number, key_usage}
use x509_parser.Prelude.{[], false, none, some, true, ◌∷◌}
use x509_parser.RevocationList.{CertificateRevocationList}
use x509_parser.X509.{AlgorithmIdentifier, X509Name, v2, v3}

abbrev pub algorithm_of : Oid → AlgorithmIdentifier
algorithm_of oid = record { algorithm = oid; parameters = none }

-- A key usage of a signature, and an authority's constraints.
abbrev pub usage_ext : X509Extension
usage_ext = record {
  oid = id_ce 15;
  critical = true;
  value = [];
  parsed_extension = key_usage (record { flags = 97 });
}

abbrev pub empty_usage_ext : X509Extension
empty_usage_ext = record usage_ext { parsed_extension = key_usage (record { flags = 0 }) }

abbrev pub authority_ext : X509Extension
authority_ext = record {
  oid = id_ce 19;
  critical = true;
  value = [];
  parsed_extension = basic_constraints (record { ca = true; path_len_constraint = none });
}

abbrev no_name : X509Name
no_name = record { rdn_seq = []; raw = [] }

-- A certificate of an authority with an RSA key.
abbrev pub sample_tbs : TbsCertificate
sample_tbs = record {
  version = v3;
  serial = 1;
  signature = algorithm_of (child 11);
  issuer = no_name;
  validity = record { not_before = record { instant = 10 }; not_after = record { instant = 20 } };
  subject = no_name;
  subject_pki = record {
    algorithm = algorithm_of (child 1);
    subject_public_key = bits_of (0 ∷ 200 ∷ []);
    raw = [];
  };
  issuer_uid = none;
  subject_uid = none;
  extensions = usage_ext ∷ authority_ext ∷ [];
  raw = [];
  raw_serial = 1 ∷ [];
}

abbrev pub sample : X509Certificate
sample = record {
  tbs_certificate = sample_tbs;
  signature_algorithm = algorithm_of (child 11);
  signature_value = bits_of [];
}

-- A revocation list with a CRL number.
abbrev pub number_ext : X509Extension
number_ext = record {
  oid = id_ce 20;
  critical = false;
  value = 9 ∷ [];
  parsed_extension = crl_number 1;
}

abbrev pub sample_list : CertificateRevocationList
sample_list = record {
  tbs_cert_list = record {
    version = some v2;
    signature = algorithm_of (child 11);
    issuer = no_name;
    this_update = record { instant = 10 };
    next_update = none;
    revoked_certificates = [];
    extensions = number_ext ∷ [];
    raw = [];
  };
  signature_algorithm = algorithm_of (child 11);
  signature_value = bits_of [];
}
