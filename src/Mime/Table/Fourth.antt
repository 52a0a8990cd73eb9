-- ===== src/Mime/Table/Fourth.antt =====
-- src/mime_map.cpp: entries of the table, in the order of the source.
use Prim.Native.String.{String}
use tcpflow.Base.{List, [], ◌∷◌}

abbrev pub fourth_entries : List (String × String)
fourth_entries =
    ("application/vnd.wap.wmlscriptc", "wmlsc")
    ∷ ("application/vnd.webturbo", "wtb")
    ∷ ("application/vnd.wolfram.player", "nbp")
    ∷ ("application/vnd.wordperfect", "wpd")
    ∷ ("application/vnd.wqd", "wqd")
    ∷ ("application/vnd.wt.stf", "stf")
    ∷ ("application/vnd.xara", "xar")
    ∷ ("application/vnd.xfdl", "xfdl")
    ∷ ("application/vnd.yamaha.hv-dic", "hvd")
    ∷ ("application/vnd.yamaha.hv-script", "hvs")
    ∷ ("application/vnd.yamaha.hv-voice", "hvp")
    ∷ ("application/vnd.yamaha.openscoreformat", "osf")
    ∷ ("application/vnd.yamaha.openscoreformat.osfpvg+xml", "osfpvg")
    ∷ ("application/vnd.yamaha.smaf-audio", "saf")
    ∷ ("application/vnd.yamaha.smaf-phrase", "spf")
    ∷ ("application/vnd.yellowriver-custom-menu", "cmp")
    ∷ ("application/vnd.zul", "zir")
    ∷ ("application/vnd.zzazz.deck+xml", "zaz")
    ∷ ("application/voicexml+xml", "vxml")
    ∷ ("application/widget", "wgt")
    ∷ ("application/winhlp", "hlp")
    ∷ ("application/wsdl+xml", "wsdl")
    ∷ ("application/wspolicy+xml", "wspolicy")
    ∷ ("application/x-7z-compressed", "7z")
    ∷ ("application/x-abiword", "abw")
    ∷ ("application/x-ace-compressed", "ace")
    ∷ ("application/x-authorware-map", "aam")
    ∷ ("application/x-authorware-seg", "aas")
    ∷ ("application/x-bcpio", "bcpio")
    ∷ ("application/x-bittorrent", "torrent")
    ∷ ("application/x-bzip", "bz")
    ∷ ("application/x-bzip2", "bz2")
    ∷ ("application/x-cdlink", "vcd")
    ∷ ("application/x-chat", "chat")
    ∷ ("application/x-chess-pgn", "pgn")
    ∷ ("application/x-cpio", "cpio")
    ∷ ("application/x-csh", "csh")
    ∷ ("application/x-debian-package", "deb")
    ∷ ("application/x-director", "dir")
    ∷ ("application/x-doom", "wad")
    ∷ ("application/x-dtbncx+xml", "ncx")
    ∷ ("application/x-dtbook+xml", "dtb")
    ∷ ("application/x-dtbresource+xml", "res")
    ∷ ("application/x-dvi", "dvi")
    ∷ ("application/x-font-bdf", "bdf")
    ∷ ("application/x-font-ghostscript", "gsf")
    ∷ ("application/x-font-linux-psf", "psf")
    ∷ ("application/x-font-otf", "otf")
    ∷ ("application/x-font-pcf", "pcf")
    ∷ ("application/x-font-snf", "snf")
    ∷ ("application/x-font-ttf", "ttf")
    ∷ ("application/x-font-type1", "afm")
    ∷ ("application/x-font-woff", "woff")
    ∷ ("application/x-futuresplash", "spl")
    ∷ ("application/x-gnumeric", "gnumeric")
    ∷ ("application/x-gtar", "gtar")
    ∷ ("application/x-hdf", "hdf")
    ∷ ("application/x-java-jnlp-file", "jnlp")
    ∷ ("application/x-latex", "latex")
    ∷ ("application/x-mobipocket-ebook", "mobi")
    ∷ ("application/x-mpegurl", "m3u8")
    ∷ ("application/x-ms-application", "application")
    ∷ ("application/x-ms-wmd", "wmd")
    ∷ ("application/x-ms-wmz", "wmz")
    ∷ ("application/x-ms-xbap", "xbap")
    ∷ ("application/x-msaccess", "mdb")
    ∷ ("application/x-msbinder", "obd")
    ∷ ("application/x-mscardfile", "crd")
    ∷ ("application/x-msclip", "clp")
    ∷ ("application/x-msmediaview", "mvb")
    ∷ ("application/x-msmetafile", "wmf")
    ∷ ("application/x-msmoney", "mny")
    ∷ ("application/x-mspublisher", "pub")
    ∷ ("application/x-msschedule", "scd")
    ∷ ("application/x-msterminal", "trm")
    ∷ ("application/x-mswrite", "wri")
    ∷ ("application/x-netcdf", "nc")
    ∷ ("application/x-pkcs12", "p12")
    ∷ ("application/x-pkcs7-certificates", "p7b")
    ∷ ("application/x-pkcs7-certreqresp", "p7r")
    ∷ ("application/x-rar-compressed", "rar")
    ∷ ("application/x-sh", "sh")
    ∷ ("application/x-shar", "shar")
    ∷ ("application/x-shockwave-flash", "swf")
    ∷ ("application/x-silverlight-app", "xap")
    ∷ ("application/x-stuffit", "sit")
    ∷ ("application/x-stuffitx", "sitx")
    ∷ ("application/x-sv4cpio", "sv4cpio")
    ∷ ("application/x-sv4crc", "sv4crc")
    ∷ ("application/x-tar", "tar")
    ∷ ("application/x-tcl", "tcl")
    ∷ ("application/x-tex", "tex")
    ∷ ("application/x-tex-tfm", "tfm")
    ∷ ("application/x-texinfo", "texi")
    ∷ ("application/x-ustar", "ustar")
    ∷ ("application/x-wais-source", "src")
    ∷ ("application/x-x509-ca-cert", "crt")
    ∷ ("application/x-xfig", "fig")
    ∷ ("application/x-xpinstall", "xpi")
    ∷ ("application/xcap-diff+xml", "xdf")
    ∷ ("application/xenc+xml", "xenc")
    ∷ ("application/xhtml+xml", "xhtml")
    ∷ ("application/xml", "xml")
    ∷ ("application/xml-dtd", "dtd")
    ∷ ("application/xop+xml", "xop")
    ∷ ("application/xslt+xml", "xslt")
    ∷ ("application/xspf+xml", "xspf")
    ∷ ("application/xv+xml", "xvml")
    ∷ ("application/yang", "yang")
    ∷ ("application/yin+xml", "yin")
    ∷ ("application/zip", "zip")
    ∷ ("audio/adpcm", "adp")
    ∷ ("audio/basic", "au")
    ∷ ("audio/midi", "mid")
    ∷ ("audio/mp4", "mp4a")
    ∷ ("audio/mp4a-latm", "m4a")
    ∷ ("audio/mpeg", "mpga")
    ∷ ("audio/ogg", "ogg")
    ∷ ("audio/vnd.dece.audio", "uvva")
    ∷ ("audio/vnd.digital-winds", "eol")
    ∷ ("audio/vnd.dra", "dra")
    ∷ ("audio/vnd.dts", "dts")
    ∷ ("audio/vnd.dts.hd", "dtshd")
    ∷ ("audio/vnd.lucent.voice", "lvp")
    ∷ ("audio/vnd.ms-playready.media.pya", "pya")
    ∷ ("audio/vnd.nuera.ecelp4800", "ecelp4800")
    ∷ ("audio/vnd.nuera.ecelp7470", "ecelp7470")
    ∷ ("audio/vnd.nuera.ecelp9600", "ecelp9600")
    ∷ ("audio/vnd.rip", "rip")
    ∷ ("audio/webm", "weba")
    ∷ ("audio/x-aac", "aac")
    ∷ ("audio/x-aiff", "aiff")
    ∷ ("audio/x-mpegurl", "m3u")
    ∷ ("audio/x-ms-wax", "wax")
    ∷ ("audio/x-ms-wma", "wma")
    ∷ ("audio/x-pn-realaudio", "ram")
    ∷ ("audio/x-pn-realaudio-plugin", "rmp")
    ∷ ("audio/x-wav", "wav")
    ∷ ("chemical/x-cdx", "cdx")
    ∷ ("chemical/x-cif", "cif")
    ∷ []
