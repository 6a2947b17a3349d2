-- ===== src/Examples/Requests.antt =====
-- The theorem on the extensions that a request asks for, at a concrete request.
use x509_parser.Examples.{plain, standard_oids}
use x509_parser.Examples.Samples.{sample, sample_tbs}
use x509_parser.Extensions.{X509Extension}
use x509_parser.Extensions.Dispatch.{parse_extension_sequence}
use x509_parser.OidMap.{inserted_from, map_get, map_insert}
use x509_parser.Prelude.{List, [], list_eq, map, none, refl, some, ◌↔◌, ◌∷◌, ◌≡◌}
use x509_parser.Request.{
  X509CertificationRequest, X509CriAttribute, attribute_parsers, find_attribute, parse_attribute,
  parse_extension_request, requested, requested_extensions,
}
use x509_parser.Request.Requested.{HoldsExtensions, requested_extensions-find_attribute}
use x509_parser.Result.{whole}
use x509_parser.X509.{v1}

abbrev asking : X509CriAttribute
asking = record {
  oid = standard_oids.extension_request;
  value = [];
  parsed_attribute = requested (record { extensions = [] });
}

abbrev sample_request : X509CertificationRequest
sample_request = record {
  certification_request_info = record {
    version = v1;
    subject = sample_tbs.subject;
    subject_pki = sample_tbs.subject_pki;
    attributes = asking ∷ [];
    raw = [];
  };
  signature_algorithm = sample.signature_algorithm;
  signature_value = sample.signature_value;
}

requested_extensions-find_attribute_example :
    ((requested_extensions sample_request ≡ some []) ↔ (
      (attr : X509CriAttribute) × (exts : List X509Extension) × (find_attribute
          (asking ∷ [])
          standard_oids.extension_request
        ≡ some attr)
      × HoldsExtensions plain standard_oids attr exts
      × ([] ≡ map (λ ext. ext.parsed_extension) exts)))
    × ((requested_extensions sample_request ≡ none)
        ↔ (find_attribute (asking ∷ []) standard_oids.extension_request ≡ none))
unfolding parse_attribute attribute_parsers inserted_from map_insert map_get list_eq
    parse_extension_request parse_extension_sequence
requested_extensions-find_attribute_example =
    requested_extensions-find_attribute plain standard_oids (λ A p f i. refl) refl sample_request []
      ((whole [], whole [], refl), tt)
