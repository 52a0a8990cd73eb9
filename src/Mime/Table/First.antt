-- ===== src/Mime/Table/First.antt =====
-- src/mime_map.cpp: entries of the table, in the order of the source.
use Prim.Native.String.{String}
use tcpflow.Base.{List, [], ◌∷◌}

abbrev pub first_entries : List (String × String)
first_entries =
    ("application/andrew-inset", "ez")
    ∷ ("application/applixware", "aw")
    ∷ ("application/atom+xml", "atom")
    ∷ ("application/atomcat+xml", "atomcat")
    ∷ ("application/atomsvc+xml", "atomsvc")
    ∷ ("application/ccxml+xml", "ccxml")
    ∷ ("application/cdmi-capability", "cdmia")
    ∷ ("application/cdmi-container", "cdmic")
    ∷ ("application/cdmi-domain", "cdmid")
    ∷ ("application/cdmi-object", "cdmio")
    ∷ ("application/cdmi-queue", "cdmiq")
    ∷ ("application/cu-seeme", "cu")
    ∷ ("application/davmount+xml", "davmount")
    ∷ ("application/dssc+der", "dssc")
    ∷ ("application/dssc+xml", "xdssc")
    ∷ ("application/ecmascript", "ecma")
    ∷ ("application/emma+xml", "emma")
    ∷ ("application/epub+zip", "epub")
    ∷ ("application/exi", "exi")
    ∷ ("application/font-tdpfr", "pfr")
    ∷ ("application/hyperstudio", "stk")
    ∷ ("application/ipfix", "ipfix")
    ∷ ("application/java-archive", "jar")
    ∷ ("application/java-serialized-object", "ser")
    ∷ ("application/java-vm", "class")
    ∷ ("application/javascript", "js")
    ∷ ("application/json", "json")
    ∷ ("application/lost+xml", "lostxml")
    ∷ ("application/mac-binhex40", "hqx")
    ∷ ("application/mac-compactpro", "cpt")
    ∷ ("application/mads+xml", "mads")
    ∷ ("application/marc", "mrc")
    ∷ ("application/marcxml+xml", "mrcx")
    ∷ ("application/mathematica", "mb")
    ∷ ("application/mathml+xml", "mathml")
    ∷ ("application/mbox", "mbox")
    ∷ ("application/mediaservercontrol+xml", "mscml")
    ∷ ("application/metalink4+xml", "meta4")
    ∷ ("application/mets+xml", "mets")
    ∷ ("application/mods+xml", "mods")
    ∷ ("application/mp21", "mp21")
    ∷ ("application/mp4", "mp4s")
    ∷ ("application/msword", "doc")
    ∷ ("application/mxf", "mxf")
    ∷ ("application/oda", "oda")
    ∷ ("application/oebps-package+xml", "opf")
    ∷ ("application/ogg", "ogx")
    ∷ ("application/onenote", "onetoc")
    ∷ ("application/patch-ops-error+xml", "xer")
    ∷ ("application/pdf", "pdf")
    ∷ ("application/pgp-encrypted", "pgp")
    ∷ ("application/pgp-signature", "asc")
    ∷ ("application/pics-rules", "prf")
    ∷ ("application/pkcs10", "p10")
    ∷ ("application/pkcs7-mime", "p7m")
    ∷ ("application/pkcs7-signature", "p7s")
    ∷ ("application/pkcs8", "p8")
    ∷ ("application/pkix-attr-cert", "ac")
    ∷ ("application/pkix-cert", "cer")
    ∷ ("application/pkix-crl", "crl")
    ∷ ("application/pkix-pkipath", "pkipath")
    ∷ ("application/pkixcmp", "pki")
    ∷ ("application/pls+xml", "pls")
    ∷ ("application/postscript", "ps")
    ∷ ("application/prs.cww", "cww")
    ∷ ("application/pskc+xml", "pskcxml")
    ∷ ("application/rdf+xml", "rdf")
    ∷ ("application/reginfo+xml", "rif")
    ∷ ("application/relax-ng-compact-syntax", "rnc")
    ∷ ("application/resource-lists+xml", "rl")
    ∷ ("application/resource-lists-diff+xml", "rld")
    ∷ ("application/rls-services+xml", "rs")
    ∷ ("application/rsd+xml", "rsd")
    ∷ ("application/rss+xml", "rss")
    ∷ ("application/rtf", "rtf")
    ∷ ("application/sbml+xml", "sbml")
    ∷ ("application/scvp-cv-request", "scq")
    ∷ ("application/scvp-cv-response", "scs")
    ∷ ("application/scvp-vp-request", "spq")
    ∷ ("application/scvp-vp-response", "spp")
    ∷ ("application/sdp", "sdp")
    ∷ ("application/set-payment-initiation", "setpay")
    ∷ ("application/set-registration-initiation", "setreg")
    ∷ ("application/shf+xml", "shf")
    ∷ ("application/smil+xml", "smil")
    ∷ ("application/sparql-query", "rq")
    ∷ ("application/sparql-results+xml", "srx")
    ∷ ("application/srgs", "gram")
    ∷ ("application/srgs+xml", "grxml")
    ∷ ("application/sru+xml", "sru")
    ∷ ("application/ssml+xml", "ssml")
    ∷ ("application/tei+xml", "teicorpus")
    ∷ ("application/thraud+xml", "tfi")
    ∷ ("application/timestamped-data", "tsd")
    ∷ ("application/vnd.3gpp.pic-bw-large", "plb")
    ∷ ("application/vnd.3gpp.pic-bw-small", "psb")
    ∷ ("application/vnd.3gpp.pic-bw-var", "pvb")
    ∷ ("application/vnd.3gpp2.tcap", "tcap")
    ∷ ("application/vnd.3m.post-it-notes", "pwn")
    ∷ ("application/vnd.accpac.simply.aso", "aso")
    ∷ ("application/vnd.accpac.simply.imp", "imp")
    ∷ ("application/vnd.acucobol", "acu")
    ∷ ("application/vnd.acucorp", "atc")
    ∷ ("application/vnd.adobe.air-application-installer-package+zip", "air")
    ∷ ("application/vnd.adobe.fxp", "fxp")
    ∷ ("application/vnd.adobe.xdp+xml", "xdp")
    ∷ ("application/vnd.adobe.xfdf", "xfdf")
    ∷ ("application/vnd.ahead.space", "ahead")
    ∷ ("application/vnd.airzip.filesecure.azf", "azf")
    ∷ ("application/vnd.airzip.filesecure.azs", "azs")
    ∷ ("application/vnd.amazon.ebook", "azw")
    ∷ ("application/vnd.americandynamics.acc", "acc")
    ∷ ("application/vnd.amiga.ami", "ami")
    ∷ ("application/vnd.android.package-archive", "apk")
    ∷ ("application/vnd.anser-web-certificate-issue-initiation", "cii")
    ∷ ("application/vnd.anser-web-funds-transfer-initiation", "fti")
    ∷ ("application/vnd.antix.game-component", "atx")
    ∷ ("application/vnd.apple.installer+xml", "mpkg")
    ∷ ("application/vnd.apple.mpegurl", "m3u8")
    ∷ ("application/vnd.aristanetworks.swi", "swi")
    ∷ ("application/vnd.audiograph", "aep")
    ∷ ("application/vnd.blueice.multipass", "mpm")
    ∷ ("application/vnd.bmi", "bmi")
    ∷ ("application/vnd.businessobjects", "rep")
    ∷ ("application/vnd.chemdraw+xml", "cdxml")
    ∷ ("application/vnd.chipnuts.karaoke-mmd", "mmd")
    ∷ ("application/vnd.cinderella", "cdy")
    ∷ ("application/vnd.claymore", "cla")
    ∷ ("application/vnd.cloanto.rp9", "rp9")
    ∷ ("application/vnd.clonk.c4group", "c4g")
    ∷ ("application/vnd.cluetrust.cartomobile-config", "c11amc")
    ∷ ("application/vnd.cluetrust.cartomobile-config-pkg", "c11amz")
    ∷ ("application/vnd.commonspace", "csp")
    ∷ ("application/vnd.contact.cmsg", "cdbcmsg")
    ∷ ("application/vnd.cosmocaller", "cmc")
    ∷ ("application/vnd.crick.clicker", "clkx")
    ∷ ("application/vnd.crick.clicker.keyboard", "clkk")
    ∷ ("application/vnd.crick.clicker.palette", "clkp")
    ∷ ("application/vnd.crick.clicker.template", "clkt")
    ∷ ("application/vnd.crick.clicker.wordbank", "clkw")
    ∷ []
