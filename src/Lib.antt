-- ===== src/Lib.antt =====
-- A model of the x509-parser crate: certificates, revocation lists and certification requests, the
-- parsers of their DER encoding, the accessors of what is parsed, and the validators.
--
-- The program's parts. A parser reads a slice and returns a value and the rest (`IResult`). It calls
-- the combinators of nom, and the primitive parsers of asn1-rs and der-parser. A certificate is a
-- sequence of a `TbsCertificate`, an algorithm and a signature; the `TbsCertificate` holds the list
-- of extensions, each of which has been dispatched, by its object identifier, to the parser of its
-- content. Accessors search the list for an identifier and look at the parsed content. Validators
-- go over a parsed certificate and report to a logger. Verification hands the raw bytes, the key and
-- the signature to the crate ring. The programs of examples/ read files, PEM or DER, and print what
-- the library parses.
--
-- Files and code.
--   Prelude                lists, tests on numbers, texts as lists of characters
--   Result, Error          `Result`, `nom::Err`, slices, results compared by a view (Views);
--                          src/error.rs; Display (the texts of the errors)
--   Asn1, Der              the data and, as the record `Der`, the functions of asn1-rs, der-parser
--                          and nom that the code calls, and the constants of oid-registry
--   Bits                   bits of bytes, `reverse_bits`, the flags of a BIT STRING
--   OidMap                 `HashMap<Oid, V>` and `HashSet<Oid>`, and the loops that fill them; Laws,
--                          Distinct, Groups, Entries: what the maps that they fill hold
--   Time                   src/time.rs: Conversions (from and to the crate `time`), Sum (sum and
--                          difference); its parsers are in Certificate.Parse
--   Utils, Utf8            src/utils.rs, and `str::from_utf8`
--   X509                   src/x509.rs: names, versions, key information, serial numbers; Parse (the
--                          parsers), Attributes (the attributes of a name), Equality (the derived
--                          `==`), Fields (constructors and getters)
--   Objects                src/objects.rs, and the text of names of src/x509.rs
--   Root                   src/lib.rs: the entry points
--   Pem                    src/pem.rs: the reader and the iterator; Lines (the lines of a buffer),
--                          Position (where a reader stands), Progress and Ends (the end of the
--                          iterator), Rest and Repeated (parse_x509_pem), Printed, Blocks and RoundTrip
--                          (blocks printed and read back)
--   PublicKey              src/public_key.rs and `SubjectPublicKeyInfo::parsed`
--   Extensions             src/extensions/: the data; Flags (the flags and their printing), Names
--                          (generalname.rs, nameconstraints.rs), Sct (sct.rs), Contents and Policies
--                          (the parsers of mod.rs and policymappings.rs), Usage (extended key usages),
--                          Grouped (the hash maps), Dispatch (the table of parsers and the parser of
--                          an extension), Builder (the parser object), Separate (`FromDer` of the
--                          contents; its children: against the parser of an extension), Display
--                          (printing)
--   Certificate            src/certificate.rs: the data, the searches, the accessors, the period;
--                          Required (the accessors that fail on another kind), Parse (its parsers
--                          and those of src/time.rs), OptionalTime, Builder (the parser objects),
--                          Envelope (parsing with and without the contents of extensions), Fields
--   RevocationList         src/revocation_list.rs; Entries (lookups), Number and Reason (what the
--                          accessors return), Fields
--   SignatureAlgorithm     src/signature_algorithm.rs; Params (the fields of the parameters)
--   SignatureValue         src/signature_value.rs
--   Verify                 src/verify.rs, with ring as the record `Ring`
--   Request                src/certification_request.rs and src/cri_attributes.rs; Attributes (the
--                          map of attributes), Requested (the extensions that a request asks for)
--   Validate               src/validate/: Logger (loggers.rs), Steps (the statements of a validator's
--                          body), Name, Key, Structure, Pedantic (extensions.rs), Chain and
--                          Callbacks (mod.rs), Combined (the two validators of a certificate)
--   Console, Format        what a program writes and how it ends, and the text of numbers
--   Programs               examples/print-cert.rs and examples/print-crl.rs: Rows (bytes as rows of
--                          digits), Extensions, Algorithms, Keys, PrintCert (the first program; its
--                          children: how its parts end, its files, its PEM blocks), PrintCrl (the
--                          second), Panics (files on which the second panics)
--   Examples               concrete instances of the parameters, and the theorems at them
--
-- Parameters. Everything of another crate is an argument: the record `Der` has a field for each
-- parser and combinator, `Oids` one for each constant, `Ring` the algorithms and their `verify`,
-- `Shows` how an identifier or an error prints, `Naming` a registry of names, a function the
-- decoder of base64, `TimeCrate` the instants of the crate `time`, and `Host` all that the programs
-- of examples/ take. The clock is an argument of the operations that read it. The theorems on the
-- CRL number, on the contents of extensions and on requested extensions assume a law of `Der`, that
-- nom's `map` applies its function to the value; the one on deep parsing of a certificate assumes
-- that what a combinator makes of a parser depends on what the parser makes of each slice; the one
-- on the contents of extensions assumes too that what a combinator does never depends on what an
-- error says; the one on the sum of times that the crate's `+` gives the instant where the duration
-- ends, or panics; the others hold of every `Der`.
--
-- Conventions. An object identifier is the list of its arcs, an unsigned integer a native natural
-- number; where the code wraps or shifts out bits, `% 2 ^ w` is written. A `String` is the list of
-- its code points. A map is an association list, whose order nothing observes. A validator is a
-- function of any logger to a result and the logger afterwards, or to a panic. The loops of the
-- code are over lists and are modelled by structural recursion, but for three of the programs of
-- examples/ and the standard library: the loop over the PEM iterator has one round more than the
-- buffer has lines, `chunks` as many rounds as bytes, and a number one more than its value for its
-- digits. A program of examples/ is the list of the texts that it writes to stdout and stderr, and
-- its end: a value, an error or a panic. A reader is its position and the list of the lines that
-- `read_line` still returns, so that the loops of src/pem.rs are over that list.
--
-- Not modelled: the parsers that asn1-rs derives, what a macro of rusticata-macros generates for
-- `X509Version` and `ReasonCode`, the re-exports of src/lib.rs and src/prelude.rs, the debug output
-- of `SignatureAlgorithm::try_from`, and the offset from UTC of a time.
pub mod Prelude
pub mod Result
pub mod Error
pub mod Bits
pub mod Asn1
pub mod OidMap
pub mod Time
pub mod Utils
pub mod Utf8
pub mod X509
pub mod Extensions
pub mod Der
pub mod Objects
pub mod Root
pub mod Pem
pub mod PublicKey
pub mod Certificate
pub mod RevocationList
pub mod SignatureAlgorithm
pub mod SignatureValue
pub mod Verify
pub mod Request
pub mod Validate
pub mod Console
pub mod Format
pub mod Programs
pub mod Examples
