-- ===== src/Mime/Table/Fifth.antt =====
-- src/mime_map.cpp: entries of the table, in the order of the source.
use Prim.Native.String.{String}
use tcpflow.Base.{List, [], ◌∷◌}

abbrev pub fifth_entries : List (String × String)
fifth_entries =
    ("chemical/x-cmdf", "cmdf")
    ∷ ("chemical/x-cml", "cml")
    ∷ ("chemical/x-csml", "csml")
    ∷ ("chemical/x-xyz", "xyz")
    ∷ ("image/bmp", "bmp")
    ∷ ("image/cgm", "cgm")
    ∷ ("image/g3fax", "g3")
    ∷ ("image/gif", "gif")
    ∷ ("image/ief", "ief")
    ∷ ("image/jp2", "jp2")
    ∷ ("image/jpeg", "jpg")
    ∷ ("image/ktx", "ktx")
    ∷ ("image/pict", "pict")
    ∷ ("image/png", "png")
    ∷ ("image/prs.btif", "btif")
    ∷ ("image/svg+xml", "svg")
    ∷ ("image/tiff", "tiff")
    ∷ ("image/vnd.adobe.photoshop", "psd")
    ∷ ("image/vnd.dece.graphic", "uvi")
    ∷ ("image/vnd.djvu", "djvu")
    ∷ ("image/vnd.dvb.subtitle", "sub")
    ∷ ("image/vnd.dwg", "dwg")
    ∷ ("image/vnd.dxf", "dxf")
    ∷ ("image/vnd.fastbidsheet", "fbs")
    ∷ ("image/vnd.fpx", "fpx")
    ∷ ("image/vnd.fst", "fst")
    ∷ ("image/vnd.fujixerox.edmics-mmr", "mmr")
    ∷ ("image/vnd.fujixerox.edmics-rlc", "rlc")
    ∷ ("image/vnd.ms-modi", "mdi")
    ∷ ("image/vnd.net-fpx", "npx")
    ∷ ("image/vnd.wap.wbmp", "wbmp")
    ∷ ("image/vnd.xiff", "xif")
    ∷ ("image/webp", "webp")
    ∷ ("image/x-cmu-raster", "ras")
    ∷ ("image/x-cmx", "cmx")
    ∷ ("image/x-freehand", "fh")
    ∷ ("image/x-icon", "ico")
    ∷ ("image/x-macpaint", "pntg")
    ∷ ("image/x-pcx", "pcx")
    ∷ ("image/x-pict", "pict")
    ∷ ("image/x-portable-anymap", "pnm")
    ∷ ("image/x-portable-bitmap", "pbm")
    ∷ ("image/x-portable-graymap", "pgm")
    ∷ ("image/x-portable-pixmap", "ppm")
    ∷ ("image/x-quicktime", "qtif")
    ∷ ("image/x-rgb", "rgb")
    ∷ ("image/x-xbitmap", "xbm")
    ∷ ("image/x-xpixmap", "xpm")
    ∷ ("image/x-xwindowdump", "xwd")
    ∷ ("message/rfc822", "eml")
    ∷ ("model/iges", "iges")
    ∷ ("model/mesh", "mesh")
    ∷ ("model/vnd.collada+xml", "dae")
    ∷ ("model/vnd.dwf", "dwf")
    ∷ ("model/vnd.gdl", "gdl")
    ∷ ("model/vnd.gtw", "gtw")
    ∷ ("model/vnd.mts", "mts")
    ∷ ("model/vnd.vtu", "vtu")
    ∷ ("model/vrml", "vrml")
    ∷ ("text/cache-manifest", "manifest")
    ∷ ("text/calendar", "ics")
    ∷ ("text/css", "css")
    ∷ ("text/csv", "csv")
    ∷ ("text/html", "html")
    ∷ ("text/n3", "n3")
    ∷ ("text/plain", "txt")
    ∷ ("text/prs.lines.tag", "dsc")
    ∷ ("text/richtext", "rtx")
    ∷ ("text/sgml", "sgml")
    ∷ ("text/tab-separated-values", "tsv")
    ∷ ("text/troff", "roff")
    ∷ ("text/turtle", "ttl")
    ∷ ("text/uri-list", "urls")
    ∷ ("text/vnd.curl", "curl")
    ∷ ("text/vnd.curl.dcurl", "dcurl")
    ∷ ("text/vnd.curl.mcurl", "mcurl")
    ∷ ("text/vnd.curl.scurl", "scurl")
    ∷ ("text/vnd.fly", "fly")
    ∷ ("text/vnd.fmi.flexstor", "flx")
    ∷ ("text/vnd.graphviz", "gv")
    ∷ ("text/vnd.in3d.3dml", "3dml")
    ∷ ("text/vnd.in3d.spot", "spot")
    ∷ ("text/vnd.sun.j2me.app-descriptor", "jad")
    ∷ ("text/vnd.wap.wml", "wml")
    ∷ ("text/vnd.wap.wmlscript", "wmls")
    ∷ ("text/x-asm", "asm")
    ∷ ("text/x-c", "c")
    ∷ ("text/x-fortran", "f")
    ∷ ("text/x-java-source", "java")
    ∷ ("text/x-pascal", "pas")
    ∷ ("text/x-setext", "etx")
    ∷ ("text/x-uuencode", "uu")
    ∷ ("text/x-vcalendar", "vcs")
    ∷ ("text/x-vcard", "vcf")
    ∷ ("video/3gpp", "3gp")
    ∷ ("video/3gpp2", "3g2")
    ∷ ("video/h261", "h261")
    ∷ ("video/h263", "h263")
    ∷ ("video/h264", "h264")
    ∷ ("video/jpeg", "jpgv")
    ∷ ("video/jpm", "jpm")
    ∷ ("video/mj2", "mj2")
    ∷ ("video/mp2t", "ts")
    ∷ ("video/mp4", "m4v")
    ∷ ("video/mpeg", "mpg")
    ∷ ("video/ogg", "ogv")
    ∷ ("video/quicktime", "mov")
    ∷ ("video/vnd.dece.hd", "uvvh")
    ∷ ("video/vnd.dece.mobile", "uvvm")
    ∷ ("video/vnd.dece.pd", "uvvp")
    ∷ ("video/vnd.dece.sd", "uvvs")
    ∷ ("video/vnd.dece.video", "uvvv")
    ∷ ("video/vnd.fvt", "fvt")
    ∷ ("video/vnd.mpegurl", "m4u")
    ∷ ("video/vnd.ms-playready.media.pyv", "pyv")
    ∷ ("video/vnd.uvvu.mp4", "uvvu")
    ∷ ("video/vnd.vivo", "viv")
    ∷ ("video/webm", "webm")
    ∷ ("video/x-dv", "dv")
    ∷ ("video/x-f4v", "f4v")
    ∷ ("video/x-fli", "fli")
    ∷ ("video/x-flv", "flv")
    ∷ ("video/x-m4v", "m4v")
    ∷ ("video/x-ms-asf", "asf")
    ∷ ("video/x-ms-wm", "wm")
    ∷ ("video/x-ms-wmv", "wmv")
    ∷ ("video/x-ms-wmx", "wmx")
    ∷ ("video/x-ms-wvx", "wvx")
    ∷ ("video/x-msvideo", "avi")
    ∷ ("video/x-sgi-movie", "movie")
    ∷ ("x-conference/x-cooltalk", "ice")
    ∷ []
